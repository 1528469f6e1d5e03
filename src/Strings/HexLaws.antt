-- ===== src/Strings/HexLaws.antt =====
-- hlibc/string.c: `hex_decode` on what `hex_encode` writes.
use mathlib.Core.List.{append_assoc}
use hlibc.Base.{
  ℕ, suc, min, ◌+◌, ◌-◌, ◌*◌, ◌/◌, ◌%◌, ◌^◌, ◌≤◌, ◌<◌, bit_and, ◌≡◌, refl, ap, ◌∙◌, true, false,
  List, [], ◌∷◌, ◌++◌, length, take, get_or, leb, ltb, ◌==◌, ==_iff, if◌then◌else◌, Bool-cases, inl,
  inr, sym, all_below, all_below_sound, pos, is_value, eq_of_is_value, Outcome, done, int_step,
  Status, success, enomem, arith,
}
use hlibc.Bits.{bit_and_mask}
use hlibc.Bit.Bytes.{IsBytes}
use hlibc.Strings.Hex.{
  hex_val, hex_encode_byte, hex_encode, prepend, hex_pair, hex_loop, hex_decode,
}
use hlibc.Strings.Tables.{hex_cset}

digits_table : all_below 16 (λ x. is_value (hex_val (get_or hex_cset x 0)) x) ≡ true
unfolding all_below is_value hex_val
digits_table = refl

-- The value of the digit for `x` is `x`.
pub hex_val-hex_cset : (x : ℕ) → x < 16 → hex_val (get_or hex_cset x 0) ≡ pos x
hex_val-hex_cset x h =
    eq_of_is_value _ x
      (all_below_sound 16 (λ y. is_value (hex_val (get_or hex_cset y 0)) y) x digits_table h)

nonzero_table : all_below 16 (λ x. ltb 0 (get_or hex_cset x 0)) ≡ true
unfolding all_below
nonzero_table = refl

hex_cset_nonzero : (x : ℕ) → x < 16 → (get_or hex_cset x 0 == 0) ≡ false
hex_cset_nonzero x h =
    ground (arith, all_below_sound 16 (λ y. ltb 0 (get_or hex_cset y 0)) x nonzero_table h)

-- One pair of digits, and one byte, of the loop.
hex_loop_pair :
    (size i a b : ℕ) (rest : List ℕ)
    → a < 16
    → b < 16
    → hex_loop size i (get_or hex_cset a 0 ∷ get_or hex_cset b 0 ∷ rest) ≡ (
        if i == size
        then done (enomem, [])
        else int_step (i + 1) (prepend ((a * 2 ^ 4 + b) % 256) (hex_loop size (i + 1) rest)))
unfolding hex_loop hex_pair
hex_loop_pair size i a b rest p q =
    rw (hex_cset_nonzero a p, hex_val-hex_cset a p, hex_val-hex_cset b q, hex_pair) refl

hex_loop_byte :
    (size i b : ℕ) (rest : List ℕ)
    → b < 256
    → hex_loop size i (hex_encode_byte b ++ rest) ≡ (
        if i == size
        then done (enomem, [])
        else int_step (i + 1) (prepend b (hex_loop size (i + 1) rest)))
unfolding hex_encode_byte
hex_loop_byte size i b rest h =
    let low : bit_and b 15 ≡ b % 16 = bit_and_mask 4 b in
    let value : (b / 16 * 2 ^ 4 + b % 16) % 256 ≡ b = omega arith in
    ap (λ t. hex_loop size i (get_or hex_cset (b / 16) 0 ∷ get_or hex_cset t 0 ∷ rest)) low
    ∙ rw value at (hex_loop_pair size i (b / 16) (b % 16) rest (omega arith) (omega arith))

-- The bytes, if there is room for them; else as many as there is room for, and `ENOMEM`.
abbrev pub fit : ℕ → List ℕ → Outcome (Status × List ℕ)
fit room bytes =
    if leb (length bytes) room then done (success, bytes) else done (enomem, take room bytes)

prepend-fit :
    (room x : ℕ) (bytes : List ℕ) → prepend x (fit room bytes) ≡ fit (suc room) (x ∷ bytes)
prepend-fit room x bytes = ground arith

fit_none : (room : ℕ) → done (success, []) ≡ fit room []
fit_none room = ground arith

fit_full : (x : ℕ) (bytes : List ℕ) → fit 0 (x ∷ bytes) ≡ done (enomem, [])
fit_full x bytes = ground arith

hex_loop_end : (size i : ℕ) (rest : List ℕ) → hex_loop size i (0 ∷ rest) ≡ done (success, [])
unfolding hex_loop
hex_loop_end size i [] = refl
hex_loop_end size i (x ∷ rest) = refl

-- Decoding what was encoded, from `out[i]` on.
pub hex_loop-hex_encode :
    (size i : ℕ) (bytes rest : List ℕ)
    → IsBytes bytes
    → i ≤ size
    → i + min (length bytes) (size - i) < 2 ^ 31
    → hex_loop size i (hex_encode bytes ++ rest) ≡ fit (size - i) bytes
unfolding hex_encode
hex_loop-hex_encode size i [] rest b h k = hex_loop_end size i rest ∙ fit_none (size - i)
hex_loop-hex_encode size i (x ∷ bytes) rest b h k =
    rw
      (
        append_assoc (hex_encode_byte x) (hex_encode bytes) rest,
        hex_loop_byte size i x (hex_encode bytes ++ rest) b.0,
      )
      (elim (Bool-cases (i == size)) [
        | inl full ↦
            let here : i ≡ size = (==_iff i size).0 full in
            let left : size - i ≡ 0 = omega arith in rw (full, left) (sym (fit_full x bytes))
        | inr room ↦
            let below : i < size = ground arith in
            let left : size - i ≡ suc (size - (i + 1)) = omega arith in
            let fits : ltb (i + 1) (2 ^ 31) ≡ true = ground (arith, below, k) in
            rw
              (
                room,
                fits,
                left,
                hex_loop-hex_encode size (i + 1) bytes rest b.1 (omega arith) (omega arith),
              )
              (prepend-fit (size - (i + 1)) x bytes)
      ])

-- `hex_decode` on the text of `hex_encode`, with anything behind its terminator: the bytes, if they
-- fit the space, and else a full space and `ENOMEM`, if fewer than 2^31 bytes are to be written. No read
-- leaves the text, and no counter overflows.
pub hex_decode-hex_encode :
    (size : ℕ) (bytes rest : List ℕ)
    → IsBytes bytes
    → min (length bytes) size < 2 ^ 31
    → hex_decode (hex_encode bytes ++ rest) size ≡ fit size bytes
unfolding hex_decode
hex_decode-hex_encode size bytes rest b k =
    hex_loop-hex_encode size 0 bytes rest b (omega arith) (omega arith)
    ∙ ap (λ t. fit t bytes) (omega arith)
