-- ===== src/Crypto/Des/Inverse.antt =====
-- hlibc/crypto/des.c: the tables `IP` and `IP_inv`.
use hlibc.Base.{
  ℕ, ◌^◌, ◌<◌, ◌≡◌, refl, Bool, true, false, List, Option, none, some, ◌==◌, arith, all_below,
  all_below_sound,
}
use hlibc.Bits.{bit_ext_lt}
use hlibc.Crypto.Des.{permute, ip, ip_inv}
use hlibc.Crypto.Des.Permutations.{ip_moves, ip_inv_moves}
use hlibc.Crypto.Des.Permute.{
  source, ends_below, ends_distinct, digit_from, bit-permute, permute-lt,
}

-- Whether digit `i` comes from the place to which the other list has moved digit `i`.
returns_to : Option ℕ → List (ℕ × ℕ) → ℕ → Bool
returns_to none moves i = false
returns_to (some start) moves i = elim (source moves start) [ none ↦ false | some o ↦ o == i ]

undoes : List (ℕ × ℕ) → List (ℕ × ℕ) → Bool
undoes back moves = all_below 64 (λ i. returns_to (source back i) moves i)

module _ (back moves : List (ℕ × ℕ)) (back_below : ends_below 64 back ≡ true)
    (back_distinct : ends_distinct back ≡ true) (below : ends_below 64 moves ≡ true)
    (distinct : ends_distinct moves ≡ true) (checked : undoes back moves ≡ true) where
  digit_returns :
      (o : Option ℕ) (x i : ℕ)
      → returns_to o moves i ≡ true
      → digit_from o (permute moves x) ≡ digit_from (some i) x
  unfolding returns_to
  digit_returns none x i h = ground arith
  digit_returns (some start) x i h = ground (arith, bit-permute moves x start below distinct)

  permute-permute : (x : ℕ) → x < 2 ^ 64 → permute back (permute moves x) ≡ x
  unfolding undoes
  permute-permute x h =
      bit_ext_lt 64 _ x (permute-lt 64 back (permute moves x) (omega arith) back_below) h (λ i lt.
        rw (bit-permute back (permute moves x) i back_below back_distinct) (
          digit_returns (source back i) x i
            (all_below_sound 64 (λ j. returns_to (source back j) moves j) i checked lt)))

-- The final permutation undoes the initial one.
pub ip_inv-ip : (x : ℕ) → x < 2 ^ 64 → ip_inv (ip x) ≡ x
unfolding ip ip_inv undoes ends_below ends_distinct source all_below returns_to
ip_inv-ip = permute-permute ip_inv_moves ip_moves refl refl refl refl refl

pub ip-ip_inv : (x : ℕ) → x < 2 ^ 64 → ip (ip_inv x) ≡ x
unfolding ip ip_inv undoes ends_below ends_distinct source all_below returns_to
ip-ip_inv = permute-permute ip_moves ip_inv_moves refl refl refl refl refl

pub ip-lt : (x : ℕ) → ip x < 2 ^ 64
unfolding ip ends_below
ip-lt x = permute-lt 64 ip_moves x (omega arith) refl

pub ip_inv-lt : (x : ℕ) → ip_inv x < 2 ^ 64
unfolding ip_inv ends_below
ip_inv-lt x = permute-lt 64 ip_inv_moves x (omega arith) refl
