-- ===== src/Numbers/Examples.antt =====
-- The functions at single ints.
use Prim.Native.Nat.{◌∣◌}
use hlibc.Base.{ℕ, ◌*◌, ◌^◌, ltb, if◌then◌else◌, ◌≡◌, refl, done, fault, pos, negsuc, arith}
use hlibc.Numbers.{abs, gcd_loop, ordered, gcd, lcm}
use hlibc.Numbers.Gcd.{gcd-lcm}

-- gcd(-12, 18), and abs of the least int.
runs : gcd (negsuc 11) (pos 18) ≡ done 6
unfolding gcd abs ordered gcd_loop
runs = refl

least_int : gcd (negsuc 2147483647) (pos 18) ≡ fault
unfolding gcd abs
least_int = refl

gcd-lcm_example :
    ((d : ℕ) × (gcd (negsuc 11) (pos 18) ≡ done d)
      × (d ∣ 12)
      × (d ∣ 18)
      × ((k : ℕ) → k ∣ 12 → k ∣ 18 → k ∣ d))
    × ((m : ℕ) × (lcm (negsuc 11) (pos 18) ≡ (if ltb (12 * 18) (2 ^ 31) then done m else fault))
        × (12 ∣ m)
        × (18 ∣ m)
        × ((e : ℕ) → 12 ∣ e → 18 ∣ e → m ∣ e))
gcd-lcm_example = gcd-lcm (negsuc 11) (pos 18) (omega arith) (omega arith)
