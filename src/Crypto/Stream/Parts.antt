-- ===== src/Crypto/Stream/Parts.antt =====
-- A message of 64 bytes that comes in two parts.
use hlibc.Base.{
  ℕ, ◌+◌, ◌-◌, ◌%◌, ◌^◌, ◌<◌, bit_and, ◌≡◌, refl, ap, ◌∙◌, false, List, [], ◌∷◌, ◌++◌, length, drop,
  replicate, length-append, length-drop, take_all, drop_all, ltb, ◌==◌, arith,
}
use hlibc.Bits.{bit_and_mask}
use hlibc.Bit.Bytes.{put_unaligned_le}
use hlibc.Crypto.Stream.{Words, Context, memcpy, init, digest, chunk_loop, chunks, update, finalize}
use hlibc.Crypto.Stream.Blocks.{memcpy-append, memcpy_full, chunk_loop-append}
use hlibc.Crypto.Stream.Padding.{finalize_short}

module _ (process_chunk : Words → List ℕ → Words) where
  first_part :
      (ctx : Context) (x : List ℕ)
      → length x < 64
      → update process_chunk (init ctx) x
        ≡ record { words = (init ctx).words; size = length x; tail = x ++ drop (length x) ctx.tail }
  unfolding update chunks init
  first_part ctx x h =
      let size : (0 + length x) % 2 ^ 64 ≡ length x = omega arith in
      rw
        (
          size,
          chunk_loop-append process_chunk 0 (length x) (init ctx).words [] x refl h (omega arith),
          memcpy-append [] ctx.tail x 0 refl,
        )
        refl

  second_part :
      (words : Words) (x old y : List ℕ)
      → 0 < length x
      → 0 < length y
      → length x + length y ≡ 64
      → length old ≡ length y
      → update process_chunk (record { words = words; size = length x; tail = x ++ old }) y
        ≡ record { words = words; size = 64; tail = x ++ y }
  unfolding update chunks
  second_part words x old y p q h k =
      let at : bit_and (length x) 63 ≡ length x = bit_and_mask 6 (length x) ∙ omega arith in
      let some_used : (length x == 0) ≡ false = ground arith in
      let enough : ltb (length y) (64 - length x) ≡ false = ground arith in
      let size : (length x + length y) % 2 ^ 64 ≡ 64 = omega arith in
      let nothing : chunk_loop process_chunk 0 words [] ≡ (words, []) =
        chunk_loop-append process_chunk 0 0 words [] [] refl (omega arith) (omega arith) in
      let kept : memcpy (x ++ y) 0 [] ≡ x ++ y = memcpy-append [] (x ++ y) [] 0 refl in
      rw
        (
          at,
          some_used,
          enough,
          size,
          take_all (64 - length x) y (omega arith),
          drop_all (64 - length x) y (omega arith),
          memcpy_full x old y (length x) refl (omega arith),
          nothing,
          kept,
        )
        refl

  pub update-update-finalize :
      (ctx : Context) (x y : List ℕ)
      → length ctx.tail ≡ 64
      → 0 < length x
      → 0 < length y
      → length x + length y ≡ 64
      → finalize process_chunk (update process_chunk (update process_chunk (init ctx) x) y)
        ≡ digest (process_chunk (init ctx).words (128 ∷ (replicate 55 0 ++ put_unaligned_le 8 512)))
  update-update-finalize ctx x y t p q h =
      ap (λ c. finalize process_chunk (update process_chunk c y)) (first_part ctx x (omega arith))
      ∙ ap (finalize process_chunk) (
          second_part (init ctx).words x (drop (length x) ctx.tail) y p q h
            (omega (arith, length-drop (length x) ctx.tail)))
      ∙ finalize_short process_chunk (init ctx).words 64 [] (x ++ y) refl
          (omega (arith, length-append x y)) (omega arith) (omega arith)
