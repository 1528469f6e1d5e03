-- ===== src/Crypto/Stream/Blocks.antt =====
-- The tail as a prefix in use and what is left, and the loop over whole chunks.
use mathlib.Core.List.{append-nil}
use hlibc.Base.{
  ℕ, zero, suc, ◌+◌, ◌*◌, ◌/◌, ◌≤◌, ◌<◌, ◌≡◌, refl, sym, ap, ap₂, ◌∙◌, true, false, List, [], ◌∷◌,
  ◌++◌, length, take, drop, set, length-append, length-take, length-drop, take-append, drop-append,
  take-append-drop, take_within, drop_within, drop_all, drop-drop, take_all, leb, arith,
}
use hlibc.Crypto.Stream.{Words, memcpy, chunk_loop}

pub memcpy-append :
    (xs old src : List ℕ) (i : ℕ)
    → length xs ≡ i
    → memcpy (xs ++ old) i src ≡ xs ++ (src ++ drop (length src) old)
unfolding memcpy
memcpy-append xs old src i h =
    ap₂ (λ s t. s ++ (src ++ t)) (take-append i xs old h)
      (sym (drop-drop (length src) i (xs ++ old)) ∙ ap (drop (length src)) (drop-append i xs old h))

-- A copy that fills what is left.
pub memcpy_full :
    (xs old src : List ℕ) (i : ℕ)
    → length xs ≡ i
    → length src ≡ length old
    → memcpy (xs ++ old) i src ≡ xs ++ src
memcpy_full xs old src i h k =
    memcpy-append xs old src i h
    ∙ ap (λ t. xs ++ (src ++ t)) (drop_all (length src) old (omega arith))
    ∙ ap (xs ++◌) (append-nil src)

pub set-append_next :
    (xs old : List ℕ) (i v : ℕ)
    → length xs ≡ i
    → 0 < length old
    → set (xs ++ old) i v ≡ (xs ++ v ∷ []) ++ drop 1 old
set-append_next [] [] i v h k = absurd (omega arith)
set-append_next [] (y ∷ old) zero v h k = refl
set-append_next [] (y ∷ old) (suc i) v h k = absurd (omega arith)
set-append_next (x ∷ xs) old zero v h k = absurd (omega arith)
set-append_next (x ∷ xs) old (suc i) v h k = ap (◌∷◌ x) (set-append_next xs old i v (omega arith) k)

module _ (process_chunk : Words → List ℕ → Words) where
  -- The function applied to `n` blocks of 64 bytes.
  abbrev pub hash_blocks : ℕ → Words → List ℕ → Words
  hash_blocks zero words msg = words
  hash_blocks (suc n) words msg = hash_blocks n (process_chunk words (take 64 msg)) (drop 64 msg)

  pub hash_blocks-append :
      (j k : ℕ) (words : Words) (xs ys : List ℕ)
      → length xs ≡ 64 * j
      → hash_blocks (j + k) words (xs ++ ys) ≡ hash_blocks k (hash_blocks j words xs) ys
  hash_blocks-append zero k words [] ys h = let e : 0 + k ≡ k = omega arith in rw e refl
  hash_blocks-append zero k words (x ∷ xs) ys h = absurd (omega arith)
  hash_blocks-append (suc j) k words xs ys h =
      let e : suc j + k ≡ suc (j + k) = omega arith in
      ap (λ n. hash_blocks n words (xs ++ ys)) e
      ∙ ap₂ (λ s t. hash_blocks (j + k) (process_chunk words s) t)
          (take_within 64 xs ys (omega arith)) (drop_within 64 xs ys (omega arith))
      ∙ hash_blocks-append j k (process_chunk words (take 64 xs)) (drop 64 xs) ys
          (omega (arith, length-drop 64 xs))

  pub chunk_loop-append :
      (j fuel : ℕ) (words : Words) (xs rest : List ℕ)
      → length xs ≡ 64 * j
      → length rest < 64
      → j ≤ fuel
      → chunk_loop process_chunk fuel words (xs ++ rest) ≡ (hash_blocks j words xs, rest)
  unfolding chunk_loop
  chunk_loop-append zero fuel words (x ∷ xs) rest h k le = absurd (omega arith)
  chunk_loop-append zero zero words [] rest h k le = refl
  chunk_loop-append zero (suc fuel) words [] rest h k le =
      let e : leb 64 (length rest) ≡ false = ground arith in rw (chunk_loop, e) refl
  chunk_loop-append (suc j) zero words xs rest h k le = absurd (omega arith)
  chunk_loop-append (suc j) (suc fuel) words xs rest h k le =
      let e : leb 64 (length (xs ++ rest)) ≡ true = ground (arith, length-append xs rest) in
      rw (chunk_loop, e, take_within 64 xs rest (omega arith), drop_within 64 xs rest (omega arith))
        (chunk_loop-append j fuel (process_chunk words (take 64 xs)) (drop 64 xs) rest
          (omega (arith, length-drop 64 xs)) k (omega arith))

  -- What the loop does with a message, whole: `m / 64` blocks, and the rest.
  pub chunk_loop_whole :
      (words : Words) (msg : List ℕ)
      → chunk_loop process_chunk (length msg) words msg ≡ (
        hash_blocks (length msg / 64) words (take (64 * (length msg / 64)) msg),
        drop (64 * (length msg / 64)) msg,
      )
  chunk_loop_whole words msg =
      let n = length msg / 64 in
      ap (chunk_loop process_chunk (length msg) words) (sym (take-append-drop (64 * n) msg))
      ∙ chunk_loop-append n (length msg) words (take (64 * n) msg) (drop (64 * n) msg)
          (omega (arith, length-take (64 * n) msg)) (omega (arith, length-drop (64 * n) msg))
          (omega arith)

  pub hash_one :
      (words : Words) (msg : List ℕ)
      → length msg ≡ 64
      → hash_blocks (length msg / 64) words msg ≡ process_chunk words msg
  hash_one words msg h =
      let n : length msg / 64 ≡ 1 = omega arith in
      ap (λ k. hash_blocks k words msg) n ∙ ap (process_chunk words) (take_all 64 msg (omega arith))

  pub hash_two :
      (words : Words) (xs ys : List ℕ)
      → length xs ≡ 64
      → length ys ≡ 64
      → hash_blocks (length (xs ++ ys) / 64) words (xs ++ ys)
        ≡ process_chunk (process_chunk words xs) ys
  hash_two words xs ys h k =
      let n : length (xs ++ ys) / 64 ≡ 1 + length ys / 64 = omega (arith, length-append xs ys) in
      ap (λ k. hash_blocks k words (xs ++ ys)) n
      ∙ hash_blocks-append 1 (length ys / 64) words xs ys (omega arith)
      ∙ hash_one (process_chunk words (take 64 xs)) ys k
      ∙ ap (λ t. process_chunk (process_chunk words t) ys) (take_all 64 xs (omega arith))
