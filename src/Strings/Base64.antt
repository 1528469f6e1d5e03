-- ===== src/Strings/Base64.antt =====
-- hlibc/string.c: `b64_val`, `b64_encode` and `b64_decode`.
use hlibc.Base.{
  ℕ, ◌+◌, ◌*◌, ◌%◌, ◌^◌, bit_and, bit_or, Bool, true, false, not, List, [], ◌∷◌, get_or, leb, ◌==◌,
  if◌then◌else◌, ℤ, pos, negsuc, Outcome, done, fault, int_step, ◌>>=◌, read, Status, success,
  einval, enomem,
}
use hlibc.Bits.{shr}
use hlibc.Strings.Hex.{prepend}
use hlibc.Strings.Tables.{b64_table, b64_charset}

-- The argument is cast to `unsigned char`.
unfoldable pub b64_val : ℕ → ℤ
b64_val c = get_or b64_table (c % 256) (negsuc 0)

-- `b64_charset[i]`.
unfoldable pub b64_char : ℕ → ℕ
b64_char i = get_or b64_charset i 0

-- The bytes written to `dest`: the loop takes three bytes at a time, the `switch` what is left.
unfoldable pub b64_encode : List ℕ → List ℕ
b64_encode (x ∷ y ∷ z ∷ src) =
    b64_char (shr x 2)
    ∷ b64_char (bit_or (bit_and x 0x3 * 2 ^ 4) (shr y 4))
    ∷ b64_char (bit_or (bit_and y 0xF * 2 ^ 2) (shr z 6))
    ∷ b64_char (bit_and z 0x3F)
    ∷ b64_encode src
b64_encode [] = 0 ∷ []
b64_encode (x ∷ []) = b64_char (shr x 2) ∷ b64_char (bit_and x 0x3 * 2 ^ 4) ∷ b'=' ∷ b'=' ∷ 0 ∷ []
b64_encode (x ∷ y ∷ []) =
    b64_char (shr x 2)
    ∷ b64_char (bit_or (bit_and x 0x3 * 2 ^ 4) (shr y 4))
    ∷ b64_char (bit_and y 0xF * 2 ^ 2)
    ∷ b'='
    ∷ 0
    ∷ []

-- What `*out++ = …` stores of the values of four characters.
unfoldable pub first_byte : ℕ → ℕ → ℕ
first_byte a b = bit_or (a * 2 ^ 2) (shr b 4) % 256

unfoldable pub second_byte : ℕ → ℕ → ℕ
second_byte b c = bit_or (b * 2 ^ 4) (shr c 2) % 256

unfoldable pub third_byte : ℕ → ℕ → ℕ
third_byte c d = bit_or (c * 2 ^ 6) (shr d 0) % 256

abbrev pub Reply : Type 0
Reply = Outcome (Status × List ℕ)

-- The cases of the `switch` behind the loop, by the number of characters of the last group that have
-- a value. `src` starts at that group and `o` is the number of bytes written before it.
unfoldable pub case_0 : List ℕ → Reply
case_0 src = read src 0 >>= λ x. done (if x == 0 then success else einval, [])

bad_pad_2 : List ℕ → Outcome Bool
bad_pad_2 src = read src 2 >>= λ x.
    if x == 0
    then done false
    else if not (x == b'=')
    then done true
    else read src 3 >>= λ y.
        if not (y == b'=') then done true else read src 4 >>= λ z. done (not (z == 0))

unfoldable pub case_2 : ℕ → ℕ → ℕ → ℕ → List ℕ → Reply
unfolding bad_pad_2
case_2 size o a b src = bad_pad_2 src >>= λ bad.
    if bad
    then done (einval, [])
    else if leb size o
    then done (enomem, [])
    else done (success, first_byte a b ∷ [])

bad_pad_3 : List ℕ → Outcome Bool
bad_pad_3 src = read src 3 >>= λ x.
    if x == 0
    then done false
    else if not (x == b'=')
    then done true
    else read src 4 >>= λ y. done (not (y == 0))

unfoldable pub case_3 : ℕ → ℕ → ℕ → ℕ → ℕ → List ℕ → Reply
unfolding bad_pad_3
case_3 size o a b c src = bad_pad_3 src >>= λ bad.
    if bad
    then done (einval, [])
    else if leb size (o + 1)
    then done (enomem, [])
    else done (success, first_byte a b ∷ second_byte b c ∷ [])

-- The body of the loop on four values; `next` is the rest of the loop.
unfoldable pub whole_group : ℕ → ℕ → ℕ → ℕ → ℕ → ℕ → Reply → Reply
whole_group size o a b c d next =
    if leb size (o + 2)
    then done (enomem, [])
    else prepend (first_byte a b) (prepend (second_byte b c) (prepend (third_byte c d) next))

-- Whether a character has a value.
abbrev pub on_value : ℤ → Reply → (ℕ → Reply) → Reply
on_value (negsuc n) stop go = stop
on_value (pos v) stop go = go v

-- `src[i++]` at character `k` of the group that starts at `i`, an `int`.
unfoldable pub next_char : ℕ → List ℕ → ℕ → Outcome ℕ
next_char i src k = int_step (i + k + 1) (read src k)

-- The condition of the loop at a group that starts at `i`: the characters are read in turn, up to one
-- without a value.
unfoldable pub b64_group : ℕ → ℕ → ℕ → List ℕ → Reply → Reply
b64_group size i o src next = next_char i src 0 >>= λ x0. on_value (b64_val x0) (case_0 src) λ a.
    next_char i src 1 >>= λ x1. on_value (b64_val x1) (done (einval, [])) λ b.
      next_char i src 2 >>= λ x2. on_value (b64_val x2) (case_2 size o a b src) λ c.
        next_char i src 3 >>= λ x3.
        on_value (b64_val x3) (case_3 size o a b c src) λ d. whole_group size o a b c d next

-- The loop at `src[i]` with `o` bytes written; `src` is the text from there on. In a buffer of fewer than four bytes it cannot go on.
unfoldable pub b64_loop : ℕ → ℕ → ℕ → List ℕ → Reply
b64_loop size i o (x0 ∷ x1 ∷ x2 ∷ x3 ∷ src) =
    b64_group size i o (x0 ∷ x1 ∷ x2 ∷ x3 ∷ src) (b64_loop size (i + 4) (o + 3) src)
b64_loop size i o src = b64_group size i o src fault

unfoldable pub b64_decode : List ℕ → ℕ → Reply
b64_decode src size = b64_loop size 0 0 src
