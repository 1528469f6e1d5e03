-- ===== src/Numbers/Gcd.antt =====
-- hlibc/math.c: `gcd` and `lcm` against divisibility.
use Prim.Native.Nat.{◌∣◌}
use native.Mathlib.Nat.{
  dvd_refl, dvd-zero, dvd-mod_iff, dvd-sub, dvd-mul_right, dvd-mul_right_of_dvd,
  dvd_of_mul-dvd-mul_right, mul-div_assoc, mul_comm, mul-sub, mod-eq-sub-mul-div, mul_assoc,
  div-mul_cancel, one-mul, zero-mul, mul-dvd-mul_left, mul-dvd-mul_right, eq-zero_of_zero-dvd,
}
use native.Mathlib.Decide.{dec_lt}
use hlibc.Base.{
  ℕ, zero, suc, ◌+◌, ◌*◌, ◌/◌, ◌%◌, ◌^◌, ◌<◌, ◌≡◌, refl, ap, ◌∙◌, true, false, Outcome, done, fault,
  ℤ, ltb, ◌==◌, arith, if◌then◌else◌,
}
use hlibc.Numbers.{magnitude, abs, gcd_loop, ordered, gcd, lcm}

-- A common divisor that every common divisor divides; also of multiples by any number.
abbrev IsGcd : ℕ → ℕ → ℕ → Type 0
IsGcd d a b = (d ∣ a) × (d ∣ b) × ((k e : ℕ) → k ∣ e * a → k ∣ e * b → k ∣ e * d)

at_one :
    {d a b : ℕ} (k : ℕ) → ((k e : ℕ) → k ∣ e * a → k ∣ e * b → k ∣ e * d) → k ∣ a → k ∣ b → k ∣ d
at_one {d} {a} {b} k most x y = rw (← one-mul d) (most k 1 (rw (one-mul a) x) (rw (one-mul b) y))

scaled_mod : (k e a b : ℕ) → k ∣ e * a → k ∣ e * b → k ∣ e * (a % b)
scaled_mod k e a b h l =
    let part : k ∣ e * (b * (a / b)) =
      rw (← mul_assoc e b (a / b)) (dvd-mul_right_of_dvd k l (a / b)) in
    rw (mod-eq-sub-mul-div a b, mul-sub e a (b * (a / b))) (dvd-sub k h part)

gcd_loop-IsGcd : (fuel a b : ℕ) → b < fuel → IsGcd (gcd_loop fuel a b) a b
unfolding gcd_loop
gcd_loop-IsGcd zero a b h = absurd (omega arith)
gcd_loop-IsGcd (suc fuel) a zero h = (dvd_refl a, dvd-zero a, λ k e l m. l)
gcd_loop-IsGcd (suc fuel) a (suc b) h =
    let smaller : a % suc b < fuel = omega arith in
    let (left, right, most) = gcd_loop-IsGcd fuel (suc b) (a % suc b) smaller in
    (
      (dvd-mod_iff (gcd_loop fuel (suc b) (a % suc b)) left).0 right,
      left,
      λ k e l m. most k e m (scaled_mod k e a (suc b) l m),
    )

ordered-IsGcd : (a b : ℕ) → IsGcd (ordered a b) a b
unfolding ordered
ordered-IsGcd a b = elim (dec_lt a b) [
  | yes h ↦
      let t : ltb a b ≡ true = ground arith in
      let (l, r, most) = gcd_loop-IsGcd (a + 1) b a (omega arith) in
      rw t (r, l, λ k e x y. most k e y x)
  | no h ↦ let t : ltb a b ≡ false = ground arith in rw t (gcd_loop-IsGcd (b + 1) a b (omega arith))
]

abs_lem : (x : ℤ) → magnitude x < 2 ^ 31 → abs x ≡ done (magnitude x)
unfolding abs
abs_lem x h = ground arith

gcd_lem :
    (a b : ℤ)
    → magnitude a < 2 ^ 31
    → magnitude b < 2 ^ 31
    → gcd a b ≡ done (ordered (magnitude a) (magnitude b))
unfolding gcd
gcd_lem a b h k = rw (abs_lem a h, abs_lem b k) refl

gcd-IsGreatest :
    (a b : ℤ)
    → magnitude a < 2 ^ 31
    → magnitude b < 2 ^ 31
    → (d : ℕ) × (gcd a b ≡ done d)
      × (d ∣ magnitude a)
      × (d ∣ magnitude b)
      × ((k : ℕ) → k ∣ magnitude a → k ∣ magnitude b → k ∣ d)
gcd-IsGreatest a b h k =
    let (l, r, most) = ordered-IsGcd (magnitude a) (magnitude b) in
    (ordered (magnitude a) (magnitude b), gcd_lem a b h k, l, r, λ c x y. at_one c most x y)

-- The product over the greatest common divisor.
module _ (a b g : ℕ) (h : IsGcd g a b) (p : 0 < g) where
  a-dvd : a ∣ a * b / g
  a-dvd = rw (mul-div_assoc g a h.1) (dvd-mul_right a (b / g))

  b-dvd : b ∣ a * b / g
  b-dvd = rw (mul_comm a b, mul-div_assoc g b h.0) (dvd-mul_right b (a / g))

  dvd_multiple : (e : ℕ) → a ∣ e → b ∣ e → a * b / g ∣ e
  dvd_multiple e x y =
      let whole : a * b / g * g ≡ a * b = div-mul_cancel g (dvd-mul_right_of_dvd g h.0 b) in
      let left : a * b ∣ e * a = rw (mul_comm e a) (mul-dvd-mul_left b a y) in
      let right : a * b ∣ e * b = mul-dvd-mul_right a x b in
      dvd_of_mul-dvd-mul_right (a * b / g) p (rw whole (h.2 (a * b) e left right))

-- The product over the divisor, where it fits an int.
lcm-IsLeast :
    (a b : ℤ)
    → magnitude a < 2 ^ 31
    → magnitude b < 2 ^ 31
    → (m : ℕ) × (lcm a b ≡ (if ltb (magnitude a * magnitude b) (2 ^ 31) then done m else fault))
      × (magnitude a ∣ m)
      × (magnitude b ∣ m)
      × ((e : ℕ) → magnitude a ∣ e → magnitude b ∣ e → m ∣ e)
unfolding lcm
lcm-IsLeast a b h k =
    let A = magnitude a in
    let B = magnitude b in
    let g = ordered A B in
    let isgcd = ordered-IsGcd A B in
    let fitting : ℕ → Outcome ℕ = λ t. if ltb (A * B) (2 ^ 31) then done t else fault in
    elim (dec_lt 0 g) [
      | yes p ↦
          let some_gcd : (g == 0) ≡ false = ground arith in
          let same : A * B / (g + 0) ≡ A * B / g = ap (λ t. A * B / t) (omega arith) in
          (
            A * B / g,
            rw (gcd_lem a b h k, some_gcd) (ap fitting same),
            a-dvd A B g isgcd p,
            b-dvd A B g isgcd p,
            dvd_multiple A B g isgcd p,
          )
      | no z ↦
          let none : g ≡ 0 = omega arith in
          let zero_a : A ≡ 0 = eq-zero_of_zero-dvd (rw (← none) isgcd.0) in
          let zero_b : B ≡ 0 = eq-zero_of_zero-dvd (rw (← none) isgcd.1) in
          (
            0,
            rw (gcd_lem a b h k, none)
                (ap fitting (ap (λ t. t * B / 1) zero_a ∙ ap (λ t. t / 1) (zero-mul B))),
            dvd-zero A,
            dvd-zero B,
            λ e x y. rw (← zero_a) x,
          )
    ]

-- For ints whose magnitudes fit an int, `gcd` returns a common divisor of the magnitudes that every common
-- divisor divides. There is a common multiple that divides every common multiple, and `lcm` returns it
-- where the product of the magnitudes fits an int, and is undefined elsewhere.
pub gcd-lcm :
    (a b : ℤ)
    → magnitude a < 2 ^ 31
    → magnitude b < 2 ^ 31
    → ((d : ℕ) × (gcd a b ≡ done d)
        × (d ∣ magnitude a)
        × (d ∣ magnitude b)
        × ((k : ℕ) → k ∣ magnitude a → k ∣ magnitude b → k ∣ d))
      × ((m : ℕ) × (lcm a b ≡ (if ltb (magnitude a * magnitude b) (2 ^ 31) then done m else fault))
          × (magnitude a ∣ m)
          × (magnitude b ∣ m)
          × ((e : ℕ) → magnitude a ∣ e → magnitude b ∣ e → m ∣ e))
gcd-lcm a b h k = (gcd-IsGreatest a b h k, lcm-IsLeast a b h k)
