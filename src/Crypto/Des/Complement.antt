-- ===== src/Crypto/Des/Complement.antt =====
-- hlibc/crypto/des.c: DES on the complements of a block and of a key.
use hlibc.Base.{
  ℕ, zero, suc, ◌-◌, ◌/◌, ◌%◌, ◌^◌, ◌≤◌, ◌<◌, bit_and, bit_xor, ◌≡◌, refl, ap, ◌∙◌, Bool, true,
  false, ◌&&◌, List, [], ◌∷◌, Option, none, some, map, ltb, length, get_or, All, arith, all_below,
  all_below_sound,
}
use hlibc.Bits.{
  bit_ext_lt, bit_xor-lt, bit_and_mask, bit_not, bit_not-sub, bit-bit_not, bit_xor_not_both,
  bit_xor_not_left, pow-pos,
}
use hlibc.Crypto.Des.{
  DesContext, Halves, permute, ip, ip_inv, p, s, e, f, ks_moves, key_schedule, des_init, mix_left,
  mix_right, rounds, split, join, encrypt_order, des_encrypt,
}
use hlibc.Crypto.Des.Permutations.{ip_moves, ip_inv_moves, e_moves}
use hlibc.Crypto.Des.Permute.{
  source, ends_below, ends_distinct, digit_from, bit-permute, permute-lt,
}
use hlibc.Crypto.Des.Inverse.{ip-lt}
use hlibc.Crypto.Des.Rounds.{IsHalves, rounds-IsHalves, split-IsHalves, join_lem}

-- Every digit below `n` is read from a digit below `w`, and no call ends elsewhere.
reads : ℕ → Option ℕ → Bool
reads w none = false
reads w (some start) = ltb start w

fills : ℕ → ℕ → List (ℕ × ℕ) → Bool
fills w n moves =
    ends_below n moves
    && (ends_below 64 moves && (ends_distinct moves && all_below n (λ i. reads w (source moves i))))

digit_from-bit_not :
    (w x : ℕ) (o : Option ℕ) → reads w o ≡ true → digit_from o (bit_not w x) ≡ 1 - digit_from o x
unfolding reads
digit_from-bit_not w x none h = ground arith
digit_from-bit_not w x (some start) h = bit-bit_not w x start (ground arith)

module _ (w n : ℕ) (moves : List (ℕ × ℕ)) (few : n ≤ 64) (ok : fills w n moves ≡ true) where
  fills_ends : ends_below n moves ≡ true
  unfolding fills
  fills_ends = ground arith

  fills_word : ends_below 64 moves ≡ true
  unfolding fills
  fills_word = ground arith

  fills_distinct : ends_distinct moves ≡ true
  unfolding fills
  fills_distinct = ground arith

  fills_reads : all_below n (λ i. reads w (source moves i)) ≡ true
  unfolding fills
  fills_reads = ground arith

  permute-bit_not : (x : ℕ) → permute moves (bit_not w x) ≡ bit_not n (permute moves x)
  permute-bit_not x =
      let small = permute-lt n moves x few fills_ends in
      bit_ext_lt n _ _ (permute-lt n moves (bit_not w x) few fills_ends)
        (bit_xor-lt n (permute moves x) (2 ^ n - 1) small (omega (arith, pow-pos n)))
        (λ i lt. omega (
          arith,
          bit-permute moves (bit_not w x) i fills_word fills_distinct,
          digit_from-bit_not w x (source moves i)
              (all_below_sound n (λ j. reads w (source moves j)) i fills_reads lt),
          bit-bit_not n (permute moves x) i lt,
          bit-permute moves x i fills_word fills_distinct,
        ))

f-bit_not : (block key : ℕ) → f (bit_not 32 block) (bit_not 48 key) ≡ f block key
unfolding f e fills reads ends_below ends_distinct source all_below
f-bit_not block key =
    ap (λ t. p (s t))
      (ap (λ t. bit_xor t (bit_not 48 key)) (permute-bit_not 32 48 e_moves (omega arith) refl block)
        ∙ bit_xor_not_both 48 (permute e_moves block) key)

flip : Halves → Halves
flip h = record { l = bit_not 32 h.l; r = bit_not 32 h.r }

-- The round keys of one context are the complements of the other's.
IsFlipped : DesContext → DesContext → Type 0
IsFlipped ctx ctx' = (i : ℕ) → i < 16 → get_or ctx'.ks i 0 ≡ bit_not 48 (get_or ctx.ks i 0)

module _ (ctx ctx' : DesContext) (flipped : IsFlipped ctx ctx') where
  mix_left-flip : (i : ℕ) (h : Halves) → i < 16 → mix_left ctx' i (flip h) ≡ flip (mix_left ctx i h)
  unfolding mix_left flip IsFlipped
  mix_left-flip i h lt =
      let key = get_or ctx.ks i 0 in
      rw (flipped i lt, f-bit_not h.r key, bit_xor_not_left 32 h.l (f h.r key)) refl

  mix_right-flip :
      (i : ℕ) (h : Halves) → i < 16 → mix_right ctx' i (flip h) ≡ flip (mix_right ctx i h)
  unfolding mix_right flip IsFlipped
  mix_right-flip i h lt =
      let key = get_or ctx.ks i 0 in
      rw (flipped i lt, f-bit_not h.l key, bit_xor_not_left 32 h.r (f h.l key)) refl

  rounds-flip :
      (o : List (ℕ × ℕ)) (h : Halves)
      → All (λ (i, j). (i < 16) × (j < 16)) o
      → rounds ctx' o (flip h) ≡ flip (rounds ctx o h)
  unfolding rounds
  rounds-flip [] h b = refl
  rounds-flip ((i, j) ∷ o) h b =
      rw (mix_left-flip i h (b.0.0), mix_right-flip j (mix_left ctx i h) (b.0.1))
        (rounds-flip o (mix_right ctx j (mix_left ctx i h)) b.1)

split-bit_not : (x : ℕ) → x < 2 ^ 64 → split (bit_not 64 x) ≡ flip (split x)
unfolding split flip
split-bit_not x h =
    let top : bit_not 64 x / 2 ^ 32 ≡ bit_not 32 (x / 2 ^ 32) =
      omega (arith, bit_not-sub 64 x h, bit_not-sub 32 (x / 2 ^ 32) (omega arith)) in
    let low : bit_and (bit_not 64 x) (2 ^ 32 - 1) ≡ bit_not 32 (bit_and x (2 ^ 32 - 1)) =
      rw (bit_and_mask 32 (bit_not 64 x), bit_and_mask 32 x)
        (omega (arith, bit_not-sub 64 x h, bit_not-sub 32 (x % 2 ^ 32) (omega arith))) in
    λ i. record { l = top i; r = low i }

flip-IsHalves : {h : Halves} → IsHalves h → IsHalves (flip h)
unfolding flip
flip-IsHalves {h} v = record {
  left = bit_xor-lt 32 h.l _ v.left (omega arith);
  right = bit_xor-lt 32 h.r _ v.right (omega arith);
}

join-flip : {h : Halves} → IsHalves h → join (flip h) ≡ bit_not 64 (join h)
unfolding flip
join-flip {h} v = omega (
  arith,
  join_lem v,
  join_lem (flip-IsHalves v),
  bit_not-sub 32 h.l v.left,
  bit_not-sub 32 h.r v.right,
  bit_not-sub 64 (join h) (omega (arith, join_lem v, v.left, v.right)),
)

all_fill : List (List (ℕ × ℕ)) → Bool
all_fill [] = true
all_fill (moves ∷ rest) = fills 64 48 moves && all_fill rest

keys-bit_not :
    (tables : List (List (ℕ × ℕ))) (key i : ℕ)
    → all_fill tables ≡ true
    → i < length tables
    → get_or (map (λ moves. permute moves (bit_not 64 key)) tables) i 0
      ≡ bit_not 48 (get_or (map (λ moves. permute moves key) tables) i 0)
unfolding all_fill
keys-bit_not [] key i ok h = absurd (omega arith)
keys-bit_not (moves ∷ rest) key zero ok h =
    permute-bit_not 64 48 moves (omega arith) (ground arith) key
keys-bit_not (moves ∷ rest) key (suc i) ok h = keys-bit_not rest key i (ground arith) (omega arith)

des_init-IsFlipped : (key : ℕ) → IsFlipped (des_init key).0 (des_init (bit_not 64 key)).0
unfolding IsFlipped des_init key_schedule all_fill fills reads ends_below ends_distinct source
    all_below
des_init-IsFlipped key i h = keys-bit_not ks_moves key i refl h

ip-bit_not : (x : ℕ) → ip (bit_not 64 x) ≡ bit_not 64 (ip x)
unfolding ip fills reads ends_below ends_distinct source all_below
ip-bit_not x = permute-bit_not 64 64 ip_moves (omega arith) refl x

ip_inv-bit_not : (x : ℕ) → ip_inv (bit_not 64 x) ≡ bit_not 64 (ip_inv x)
unfolding ip_inv fills reads ends_below ends_distinct source all_below
ip_inv-bit_not x = permute-bit_not 64 64 ip_inv_moves (omega arith) refl x

-- The complement of a block, encrypted under the complement of a key, is the complement of the
-- cipher.
pub des_encrypt-bit_not :
    (key block : ℕ)
    → des_encrypt (des_init (bit_not 64 key)).0 (bit_not 64 block)
      ≡ bit_not 64 (des_encrypt (des_init key).0 block)
unfolding des_encrypt
des_encrypt-bit_not key block =
    let ctx = (des_init key).0 in
    let start = split (ip block) in
    rw
      (
        ip-bit_not block,
        split-bit_not (ip block) (ip-lt block),
        rounds-flip ctx (des_init (bit_not 64 key)).0 (des_init-IsFlipped key) encrypt_order start
            (omega arith),
        join-flip (rounds-IsHalves ctx encrypt_order (split-IsHalves (ip block) (ip-lt block))),
      )
      (ip_inv-bit_not (join (rounds ctx encrypt_order start)))
