-- ===== src/Crypto/Des/Rounds.antt =====
-- hlibc/crypto/des.c: the rounds of DES, with their keys in either order.
use hlibc.Base.{ℕ, ◌+◌, ◌*◌, ◌/◌, ◌%◌, ◌^◌, ◌<◌, ◌≡◌, refl, List, [], ◌∷◌, ◌++◌, get_or, arith}
use native.Mathlib.Nat.{mod-eq_of_lt}
use hlibc.Bits.{bit_xor_cancel, bit_xor-lt, bit_or_fields, bit_and_mask}
use hlibc.Crypto.Des.{
  DesContext, Halves, f, p, mix_left, mix_right, rounds, split, join, ip, encrypt_order,
  des_encrypt, des_decrypt,
}
use hlibc.Crypto.Des.Permutations.{p_moves}
use hlibc.Crypto.Des.Permute.{ends_below, permute-lt}
use hlibc.Crypto.Des.Inverse.{ip_inv-ip, ip-ip_inv, ip-lt, ip_inv-lt}

-- Both halves are 32 bits wide.
pub record IsHalves (h : Halves) : Type 0 where
  pub left : h.l < 2 ^ 32
  pub right : h.r < 2 ^ 32

f-lt : (block key : ℕ) → f block key < 2 ^ 32
unfolding f p ends_below
f-lt block key = permute-lt 32 p_moves _ (omega arith) refl

exchange : Halves → Halves
exchange h = record { l = h.r; r = h.l }

module _ (ctx : DesContext) where
  mix_left-exchange :
      (i : ℕ) (h : Halves) → mix_left ctx i (exchange h) ≡ exchange (mix_right ctx i h)
  unfolding mix_left mix_right exchange
  mix_left-exchange i h = refl

  mix_right-exchange :
      (i : ℕ) (h : Halves) → mix_right ctx i (exchange h) ≡ exchange (mix_left ctx i h)
  unfolding mix_left mix_right exchange
  mix_right-exchange i h = refl

  mix_left_twice : (i : ℕ) (h : Halves) → mix_left ctx i (mix_left ctx i h) ≡ h
  unfolding mix_left
  mix_left_twice i h = ground (arith, bit_xor_cancel h.l (f h.r (get_or ctx.ks i 0)))

  mix_right_twice : (i : ℕ) (h : Halves) → mix_right ctx i (mix_right ctx i h) ≡ h
  unfolding mix_right
  mix_right_twice i h = ground (arith, bit_xor_cancel h.r (f h.l (get_or ctx.ks i 0)))

  rounds-append :
      (o o' : List (ℕ × ℕ)) (h : Halves) → rounds ctx (o ++ o') h ≡ rounds ctx o' (rounds ctx o h)
  unfolding rounds
  rounds-append [] o' h = refl
  rounds-append ((i, j) ∷ o) o' h = rounds-append o o' (mix_right ctx j (mix_left ctx i h))

  -- The same round keys from the last to the first.
  backwards : List (ℕ × ℕ) → List (ℕ × ℕ)
  backwards [] = []
  backwards ((i, j) ∷ o) = backwards o ++ (j, i) ∷ []

  rounds-backwards :
      (o : List (ℕ × ℕ)) (h : Halves)
      → rounds ctx (backwards o) (exchange (rounds ctx o h)) ≡ exchange h
  unfolding rounds backwards
  rounds-backwards [] h = refl
  rounds-backwards ((i, j) ∷ o) h =
      rw
        (
          rounds-append (backwards o) ((j, i) ∷ []) _,
          rounds-backwards o (mix_right ctx j (mix_left ctx i h)),
          mix_left-exchange,
          mix_right_twice,
          mix_right-exchange,
          mix_left_twice,
        )
        refl

  mix_right-IsHalves : (i : ℕ) {h : Halves} → IsHalves h → IsHalves (mix_right ctx i h)
  unfolding mix_right
  mix_right-IsHalves i {h} v = record {
    left = v.left;
    right = bit_xor-lt 32 _ _ v.right (f-lt h.l (get_or ctx.ks i 0));
  }

  mix_left-IsHalves : (i : ℕ) {h : Halves} → IsHalves h → IsHalves (mix_left ctx i h)
  unfolding mix_left
  mix_left-IsHalves i {h} v = record {
    left = bit_xor-lt 32 _ _ v.left (f-lt h.r (get_or ctx.ks i 0));
    right = v.right;
  }

  pub rounds-IsHalves : (o : List (ℕ × ℕ)) {h : Halves} → IsHalves h → IsHalves (rounds ctx o h)
  unfolding rounds
  rounds-IsHalves [] v = v
  rounds-IsHalves ((i, j) ∷ o) v = rounds-IsHalves o (mix_right-IsHalves j (mix_left-IsHalves i v))

pub join_lem : {h : Halves} → IsHalves h → join h ≡ h.r * 2 ^ 32 + h.l
unfolding join
join_lem {h} v =
    rw (mod-eq_of_lt {n = h.r * 2 ^ 32} {m = 2 ^ 64} (omega arith))
      (bit_or_fields 32 h.r h.l v.left)

join-lt : {h : Halves} → IsHalves h → join h < 2 ^ 64
join-lt v = omega (arith, join_lem v, v.left, v.right)

split-join : {h : Halves} → IsHalves h → split (join h) ≡ exchange h
unfolding split exchange
split-join {h} v = rw (bit_and_mask 32 (join h)) (ground (arith, join_lem v))

join-exchange-split : (x : ℕ) → x < 2 ^ 64 → join (exchange (split x)) ≡ x
unfolding split exchange join
join-exchange-split x h =
    rw
      (
        mod-eq_of_lt {n = x / 2 ^ 32 * 2 ^ 32} {m = 2 ^ 64} (omega arith),
        bit_and_mask 32 x,
        bit_or_fields 32 (x / 2 ^ 32) (x % 2 ^ 32) (omega arith),
      )
      (omega arith)

pub split-IsHalves : (x : ℕ) → x < 2 ^ 64 → IsHalves (split x)
unfolding split
split-IsHalves x h = record { left = omega arith; right = rw (bit_and_mask 32 x) (omega arith) }

pub des_encrypt-lt : (ctx : DesContext) (block : ℕ) → des_encrypt ctx block < 2 ^ 64
unfolding des_encrypt
des_encrypt-lt ctx block = ip_inv-lt _

-- A block of 64 bits is decrypted to itself after encryption under the same context, whatever its
-- round keys are.
pub des_decrypt-des_encrypt :
    (ctx : DesContext) (block : ℕ)
    → block < 2 ^ 64
    → des_decrypt ctx (des_encrypt ctx block) ≡ block
unfolding des_decrypt des_encrypt backwards
des_decrypt-des_encrypt ctx block h =
    let start = split-IsHalves (ip block) (ip-lt block) in
    let done = rounds-IsHalves ctx encrypt_order start in
    rw
      (
        ip-ip_inv _ (join-lt done),
        split-join done,
        rounds-backwards ctx encrypt_order (split (ip block)),
        join-exchange-split (ip block) (ip-lt block),
      )
      (ip_inv-ip block h)
