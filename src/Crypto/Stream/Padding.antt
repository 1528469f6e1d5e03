-- ===== src/Crypto/Stream/Padding.antt =====
-- hlibc/crypto/md4.c and hlibc/crypto/md5.c: the padding of a message in one part.
use mathlib.Core.List.{append_assoc}
use hlibc.Base.{
  ℕ, ◌+◌, ◌-◌, ◌*◌, ◌/◌, ◌%◌, ◌^◌, ◌≤◌, ◌<◌, bit_and, ◌≡◌, refl, sym, ap, ap₂, ◌∙◌, true, false,
  List, [], ◌∷◌, ◌++◌, length, take, drop, set, replicate, length-append, length-take, length-drop,
  length-replicate, replicate-add, take-append-drop, ltb, arith,
}
use native.Mathlib.Decide.{dec_lt}
use hlibc.Bits.{shl, bit_and_mask}
use hlibc.Bit.Bytes.{put_unaligned_le, length-put_unaligned_le}
use hlibc.Crypto.Stream.{
  Words, Context, memcpy, memzero, init, digest, chunks, update, last_chunk, finalize,
}
use hlibc.Crypto.Stream.Blocks.{
  memcpy-append, memcpy_full, set-append_next, hash_blocks, hash_blocks-append, chunk_loop_whole,
  hash_one, hash_two,
}

-- The zeros between the byte 128 and the length.
abbrev pub pad_zeros : ℕ → List ℕ
pad_zeros n = replicate ((119 - n % 64) % 64) 0

-- The message, the byte 128, zeros, and the length in bits.
abbrev pub padded : List ℕ → List ℕ
padded msg = msg ++ 128 ∷ (pad_zeros (length msg) ++ put_unaligned_le 8 (8 * length msg))

module _ (process_chunk : Words → List ℕ → Words) where
  last_chunk_lem :
      (words : Words) (size used : ℕ) (xs old : List ℕ)
      → length xs ≡ used
      → used ≤ 56
      → length old ≡ 64 - used
      → size < 2 ^ 61
      → last_chunk process_chunk words size (xs ++ old) used
        ≡ digest
            (process_chunk words (xs ++ (replicate (56 - used) 0 ++ put_unaligned_le 8 (8 * size))))
  unfolding last_chunk memzero
  last_chunk_lem words size used xs old h le k b =
      let zeros : List ℕ = replicate (56 - used) 0 in
      let left = drop (length zeros) old in
      let n : length zeros ≡ 56 - used = length-replicate (56 - used) 0 in
      let bits : shl 64 size 3 ≡ 8 * size = omega arith in
      let cleared : memcpy (xs ++ old) used zeros ≡ (xs ++ zeros) ++ left =
        memcpy-append xs old zeros used h ∙ sym (append_assoc xs zeros left) in
      ap₂ (λ t z. digest (process_chunk words (memcpy t 56 (put_unaligned_le 8 z)))) cleared bits
      ∙ ap (λ t. digest (process_chunk words t))
          (memcpy_full (xs ++ zeros) left (put_unaligned_le 8 (8 * size)) 56
              (omega (arith, length-append xs zeros))
              (omega (arith, length-put_unaligned_le 8 (8 * size), length-drop (length zeros) old))
            ∙ append_assoc xs zeros (put_unaligned_le 8 (8 * size)))

  -- `finalize` on the tail `rest ++ old`: one block, or two.
  module _ (words : Words) (size : ℕ) (rest old : List ℕ) (h : length rest ≡ size % 64)
      (k : length (rest ++ old) ≡ 64) (b : size < 2 ^ 61) where
    marked : set (rest ++ old) (bit_and size 63) 128 ≡ (rest ++ 128 ∷ []) ++ drop 1 old
    marked =
        set-append_next rest old (bit_and size 63) 128 (h ∙ sym (bit_and_mask 6 size))
          (omega (arith, length-append rest old))

    pub finalize_short :
        length rest < 56
        → finalize process_chunk (record { words = words; size = size; tail = rest ++ old })
          ≡ digest (
              process_chunk words
                (rest ++ 128 ∷ (replicate (55 - length rest) 0 ++ put_unaligned_le 8 (8 * size))))
    unfolding finalize
    finalize_short l =
        let at : bit_and size 63 ≡ length rest = bit_and_mask 6 size ∙ sym h in
        let small : ltb 56 (length rest + 1) ≡ false = ground arith in
        let z : 56 - (length rest + 1) ≡ 55 - length rest = omega arith in
        rw (finalize, marked, at, small)
          (last_chunk_lem words size (length rest + 1) (rest ++ 128 ∷ []) (drop 1 old)
              (omega (arith, length-append rest (128 ∷ []))) (omega arith)
              (omega (arith, length-drop 1 old, length-append rest old)) b
            ∙ ap (λ t. digest (process_chunk words t))
                (append_assoc rest (128 ∷ [])
                    (replicate (56 - (length rest + 1)) 0 ++ put_unaligned_le 8 (8 * size))
                  ∙ ap (λ n. rest ++ 128 ∷ (replicate n 0 ++ put_unaligned_le 8 (8 * size))) z))

    finalize_long :
        56 ≤ length rest
        → finalize process_chunk (record { words = words; size = size; tail = rest ++ old })
          ≡ digest (
              process_chunk
                (process_chunk words (rest ++ 128 ∷ replicate (63 - length rest) 0))
                (replicate 56 0 ++ put_unaligned_le 8 (8 * size)))
    unfolding memzero finalize
    finalize_long l =
        let at : bit_and size 63 ≡ length rest = bit_and_mask 6 size ∙ sym h in
        let big : ltb 56 (length rest + 1) ≡ true = ground (arith, length-append rest old) in
        let zeros : List ℕ = replicate (64 - (length rest + 1)) 0 in
        let z : 64 - (length rest + 1) ≡ 63 - length rest = omega arith in
        let full : memzero ((rest ++ 128 ∷ []) ++ drop 1 old) (length rest + 1)
              (64 - (length rest + 1))
            ≡ rest ++ 128 ∷ zeros =
          memcpy_full (rest ++ 128 ∷ []) (drop 1 old) zeros (length rest + 1)
            (omega (arith, length-append rest (128 ∷ [])))
            (omega (
              arith,
              length-replicate {A = ℕ} (64 - (length rest + 1)) 0,
              length-drop 1 old,
              length-append rest old,
            ))
          ∙ append_assoc rest (128 ∷ []) zeros in
        rw (finalize, marked, at, big, full, z)
          (last_chunk_lem (process_chunk words (rest ++ 128 ∷ replicate (63 - length rest) 0)) size
            0 [] (rest ++ 128 ∷ replicate (63 - length rest) 0) refl (omega arith)
            (omega (
              arith,
              length-append rest (128 ∷ replicate (63 - length rest) 0),
              length-append rest old,
              length-replicate {A = ℕ} (63 - length rest) 0,
            ))
            b)

  -- The last block or two, of what a message leaves in the tail.
  closing : ℕ → List ℕ → List ℕ
  closing size rest = rest ++ 128 ∷ (pad_zeros size ++ put_unaligned_le 8 (8 * size))

  hash_closing : Words → List ℕ → List ℕ
  hash_closing words msg = digest (hash_blocks process_chunk (length msg / 64) words msg)

  finalize_lem :
      (words : Words) (size : ℕ) (rest old : List ℕ)
      → length rest ≡ size % 64
      → length (rest ++ old) ≡ 64
      → size < 2 ^ 61
      → finalize process_chunk (record { words = words; size = size; tail = rest ++ old })
        ≡ hash_closing words (closing size rest)
  unfolding closing hash_closing
  finalize_lem words size rest old h k b =
      let fin = put_unaligned_le 8 (8 * size) in
      let len = length-put_unaligned_le 8 (8 * size) in
      elim (dec_lt (length rest) 56) [
        | yes l ↦
            let z : (119 - size % 64) % 64 ≡ 55 - length rest = omega arith in
            let block = rest ++ 128 ∷ (replicate (55 - length rest) 0 ++ fin) in
            let n : length (replicate {A = ℕ} (55 - length rest) 0) ≡ 55 - length rest =
              length-replicate (55 - length rest) 0 in
            let same : closing size rest ≡ block =
              ap (λ n. rest ++ 128 ∷ (replicate n 0 ++ fin)) z in
            finalize_short words size rest old h k b l
            ∙ ap digest (
                sym (
                  hash_one process_chunk words block (
                    omega (
                      arith,
                      n,
                      len,
                      length-append rest (128 ∷ (replicate (55 - length rest) 0 ++ fin)),
                      length-append {A = ℕ} (replicate (55 - length rest) 0) fin,
                    ))))
            ∙ ap (hash_closing words) (sym same)
        | no l ↦
            let zeros : List ℕ = replicate (63 - length rest) 0 in
            let first = rest ++ 128 ∷ zeros in
            let second = replicate 56 0 ++ fin in
            let n : length zeros ≡ 63 - length rest = length-replicate (63 - length rest) 0 in
            let z : (119 - size % 64) % 64 ≡ (63 - length rest) + 56 =
              omega (arith, length-append rest old) in
            let same : closing size rest ≡ first ++ second =
              ap (λ n. rest ++ 128 ∷ (replicate n 0 ++ fin)) z
              ∙ ap (λ t. rest ++ 128 ∷ (t ++ fin)) (replicate-add (63 - length rest) 56 0)
              ∙ ap (λ t. rest ++ 128 ∷ t) (append_assoc zeros (replicate 56 0) fin)
              ∙ sym (append_assoc rest (128 ∷ zeros) second) in
            finalize_long words size rest old h k b (omega arith)
            ∙ ap digest (
                sym (
                  hash_two process_chunk words first second
                    (omega (arith, n, length-append rest (128 ∷ zeros), length-append rest old))
                    (omega (arith, len, length-append {A = ℕ} (replicate 56 0) fin))))
            ∙ ap (hash_closing words) (sym same)
      ]

  pub update-finalize :
      (ctx : Context) (msg : List ℕ)
      → length ctx.tail ≡ 64
      → length msg < 2 ^ 61
      → finalize process_chunk (update process_chunk (init ctx) msg)
        ≡ digest
            (hash_blocks process_chunk (length (padded msg) / 64) (init ctx).words (padded msg))
  unfolding update chunks init hash_closing closing
  update-finalize ctx msg h b =
      let n = length msg / 64 in
      let words = (init ctx).words in
      let whole = take (64 * n) msg in
      let rest = drop (64 * n) msg in
      let old = drop (length rest) ctx.tail in
      let size : (0 + length msg) % 2 ^ 64 ≡ length msg = omega arith in
      let r : length rest ≡ length msg % 64 = omega (arith, length-drop (64 * n) msg) in
      let w : length whole ≡ 64 * n = omega (arith, length-take (64 * n) msg) in
      let end = closing (length msg) rest in
      let count : n + length end / 64 ≡ length (padded msg) / 64 = omega (
        arith,
        length-append rest (128 ∷ (pad_zeros (length msg) ++ put_unaligned_le 8 (8 * length msg))),
        length-append msg (128 ∷ (pad_zeros (length msg) ++ put_unaligned_le 8 (8 * length msg))),
      ) in
      rw (size, chunk_loop_whole process_chunk words msg, memcpy-append [] ctx.tail rest 0 refl)
        (finalize_lem (hash_blocks process_chunk n words whole) (length msg) rest old r
            (omega (arith, length-append rest old, length-drop (length rest) ctx.tail)) b
          ∙ ap digest (
              sym (hash_blocks-append process_chunk n (length end / 64) words whole end w)
              ∙ ap₂ (λ k t. hash_blocks process_chunk k words t) count
                  (sym (
                      append_assoc whole rest
                        (128 ∷ (pad_zeros (length msg) ++ put_unaligned_le 8 (8 * length msg))))
                    ∙ ap
                        (λ t.
                          t
                          ++ 128 ∷ (pad_zeros (length msg) ++ put_unaligned_le 8 (8 * length msg)))
                        (take-append-drop (64 * n) msg))))
