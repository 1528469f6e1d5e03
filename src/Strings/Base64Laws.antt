-- ===== src/Strings/Base64Laws.antt =====
-- hlibc/string.c: `b64_decode` on what `b64_encode` writes.
use hlibc.Base.{
  ℕ, suc, ◌+◌, ◌-◌, ◌*◌, ◌/◌, ◌%◌, ◌^◌, ◌≤◌, ◌<◌, bit_and, bit_or, ◌≡◌, refl, ap, ◌∙◌, inl, inr,
  true, List, [], ◌∷◌, ◌++◌, length, take, leb, ltb, if◌then◌else◌, Bool-cases, all_below,
  all_below_sound, pos, negsuc, is_value, eq_of_is_value, done, read, success, enomem, arith,
}
use hlibc.Bits.{shr, bit_and_mask, bit_or_fields}
use hlibc.Bit.Bytes.{IsBytes}
use hlibc.Strings.Hex.{prepend}
use hlibc.Strings.Base64.{
  Reply, b64_val, b64_char, b64_encode, first_byte, second_byte, third_byte, case_0, case_2, case_3,
  whole_group, next_char, b64_group, b64_loop, b64_decode,
}

values_table : all_below 64 (λ x. is_value (b64_val (b64_char x)) x) ≡ true
unfolding all_below is_value b64_val b64_char
values_table = refl

-- The value of the character for `x` is `x`.
pub b64_val-b64_char : (x : ℕ) → x < 64 → b64_val (b64_char x) ≡ pos x
b64_val-b64_char x h =
    eq_of_is_value _ x
      (all_below_sound 64 (λ y. is_value (b64_val (b64_char y)) y) x values_table h)

-- The digits of a group, as arithmetic.
second_digit : (x y : ℕ) → y < 256 → bit_or (bit_and x 3 * 2 ^ 4) (shr y 4) ≡ x % 4 * 16 + y / 16
second_digit x y h = rw (bit_and_mask 2 x) (bit_or_fields 4 (x % 4) (y / 16) (omega arith))

third_digit : (y z : ℕ) → z < 256 → bit_or (bit_and y 15 * 2 ^ 2) (shr z 6) ≡ y % 16 * 4 + z / 64
third_digit y z h = rw (bit_and_mask 4 y) (bit_or_fields 2 (y % 16) (z / 64) (omega arith))

one_digit : (x : ℕ) → bit_and x 3 * 2 ^ 4 ≡ x % 4 * 16 + 0
one_digit x = omega (arith, bit_and_mask 2 x)

two_digits : (y : ℕ) → bit_and y 15 * 2 ^ 2 ≡ y % 16 * 4 + 0
two_digits y = omega (arith, bit_and_mask 4 y)

first_byte_lem : (x r : ℕ) → x < 256 → r < 16 → first_byte (x / 4) (x % 4 * 16 + r) ≡ x
unfolding first_byte
first_byte_lem x r h k =
    rw (bit_or_fields 2 (x / 4) ((x % 4 * 16 + r) / 16) (omega arith)) (omega arith)

second_byte_lem : (q y r : ℕ) → y < 256 → r < 4 → second_byte (q * 16 + y / 16) (y % 16 * 4 + r) ≡ y
unfolding second_byte
second_byte_lem q y r h k =
    rw (bit_or_fields 4 (q * 16 + y / 16) ((y % 16 * 4 + r) / 4) (omega arith)) (omega arith)

third_byte_lem : (q z : ℕ) → z < 256 → third_byte (q * 4 + z / 64) (z % 64) ≡ z
unfolding third_byte
third_byte_lem q z h =
    rw (bit_or_fields 6 (q * 4 + z / 64) (z % 64 / 1) (omega arith)) (omega arith)

next_char_lem : (i k : ℕ) (src : List ℕ) → i + k + 1 < 2 ^ 31 → next_char i src k ≡ read src k
unfolding next_char
next_char_lem i k src h =
    let fits : ltb (i + k + 1) (2 ^ 31) ≡ true = ground (arith, h) in rw fits refl

-- The loop at characters that have values.
group_digits :
    (size i o a b c d : ℕ) (src : List ℕ) (next : Reply)
    → i + 4 < 2 ^ 31
    → a < 64
    → b < 64
    → c < 64
    → d < 64
    → b64_group size i o (b64_char a ∷ b64_char b ∷ b64_char c ∷ b64_char d ∷ src) next
      ≡ whole_group size o a b c d next
unfolding b64_group read
group_digits size i o a b c d src next room p q r s =
    let text = b64_char a ∷ b64_char b ∷ b64_char c ∷ b64_char d ∷ src in
    rw
      (
        next_char_lem i 0 text (omega (arith, room)),
        b64_val-b64_char a p,
        next_char_lem i 1 text (omega (arith, room)),
        b64_val-b64_char b q,
        next_char_lem i 2 text (omega (arith, room)),
        b64_val-b64_char c r,
        next_char_lem i 3 text (omega (arith, room)),
        b64_val-b64_char d s,
      )
      refl

group_two :
    (size i o a b x : ℕ) (src : List ℕ) (next : Reply)
    → i + 4 < 2 ^ 31
    → a < 64
    → b < 64
    → b64_val x ≡ negsuc 0
    → b64_group size i o (b64_char a ∷ b64_char b ∷ x ∷ src) next
      ≡ case_2 size o a b (b64_char a ∷ b64_char b ∷ x ∷ src)
unfolding b64_group read
group_two size i o a b x src next room p q stop =
    let text = b64_char a ∷ b64_char b ∷ x ∷ src in
    rw
      (
        next_char_lem i 0 text (omega (arith, room)),
        b64_val-b64_char a p,
        next_char_lem i 1 text (omega (arith, room)),
        b64_val-b64_char b q,
        next_char_lem i 2 text (omega (arith, room)),
        stop,
      )
      refl

group_three :
    (size i o a b c x : ℕ) (src : List ℕ) (next : Reply)
    → i + 4 < 2 ^ 31
    → a < 64
    → b < 64
    → c < 64
    → b64_val x ≡ negsuc 0
    → b64_group size i o (b64_char a ∷ b64_char b ∷ b64_char c ∷ x ∷ src) next
      ≡ case_3 size o a b c (b64_char a ∷ b64_char b ∷ b64_char c ∷ x ∷ src)
unfolding b64_group read
group_three size i o a b c x src next room p q r stop =
    let text = b64_char a ∷ b64_char b ∷ b64_char c ∷ x ∷ src in
    rw
      (
        next_char_lem i 0 text (omega (arith, room)),
        b64_val-b64_char a p,
        next_char_lem i 1 text (omega (arith, room)),
        b64_val-b64_char b q,
        next_char_lem i 2 text (omega (arith, room)),
        b64_val-b64_char c r,
        next_char_lem i 3 text (omega (arith, room)),
        stop,
      )
      refl

-- The bytes, if there is room for them; else as many whole groups of three as there is room for, and
-- `ENOMEM`.
abbrev pub fit_groups : ℕ → List ℕ → Reply
fit_groups room bytes =
    if leb (length bytes) room
    then done (success, bytes)
    else done (enomem, take (3 * (room / 3)) bytes)

fit_groups_step :
    (room x y z : ℕ) (bytes : List ℕ)
    → prepend x (prepend y (prepend z (fit_groups room bytes)))
      ≡ fit_groups (suc (suc (suc room))) (x ∷ y ∷ z ∷ bytes)
fit_groups_step room x y z bytes =
    let groups : 3 * (suc (suc (suc room)) / 3) ≡ suc (suc (suc (3 * (room / 3)))) = omega arith in
    rw groups (ground arith)

fit_groups_full :
    (room x : ℕ) (bytes : List ℕ)
    → room < 3
    → room ≤ length bytes
    → done (enomem, []) ≡ fit_groups room (x ∷ bytes)
fit_groups_full room x bytes h k =
    let none_left : 3 * (room / 3) ≡ 0 = omega arith in rw none_left (ground arith)

fit_groups_all :
    (room : ℕ) (bytes : List ℕ)
    → length bytes ≤ room
    → done (success, bytes) ≡ fit_groups room bytes
fit_groups_all room bytes h = ground arith

module _ (size i o : ℕ) (start : o ≤ size) where
  -- A whole group of three bytes.
  encoded_three :
      (x y z : ℕ) (src : List ℕ) (bytes : List ℕ)
      → x < 256
      → y < 256
      → z < 256
      → i + 4 < 2 ^ 31
      → (o + 3 ≤ size → b64_loop size (i + 4) (o + 3) src ≡ fit_groups (size - (o + 3)) bytes)
      → b64_loop size i o (
          b64_char (shr x 2)
          ∷ b64_char (bit_or (bit_and x 0x3 * 2 ^ 4) (shr y 4))
          ∷ b64_char (bit_or (bit_and y 0xF * 2 ^ 2) (shr z 6))
          ∷ b64_char (bit_and z 0x3F)
          ∷ src)
        ≡ fit_groups (size - o) (x ∷ y ∷ z ∷ bytes)
  unfolding b64_loop whole_group
  encoded_three x y z src bytes p q r room next =
      rw
        (
          second_digit x y q,
          third_digit y z r,
          bit_and_mask 6 z,
          group_digits size i o (x / 4) (x % 4 * 16 + y / 16) (y % 16 * 4 + z / 64) (z % 64) src _
              room (omega arith) (omega arith) (omega arith) (omega arith),
          first_byte_lem x (y / 16) p (omega arith),
          second_byte_lem (x % 4) y (z / 64) q (omega arith),
          third_byte_lem (y % 16) z r,
        )
        (elim (Bool-cases (leb size (o + 2))) [
          | inl full ↦
              let few : size - o < 3 = ground arith in
              rw full (fit_groups_full (size - o) x (y ∷ z ∷ bytes) few (omega arith))
          | inr here ↦
              let more : o + 3 ≤ size = ground arith in
              let left : size - o ≡ suc (suc (suc (size - (o + 3)))) = omega arith in
              rw (here, next more, left) (fit_groups_step (size - (o + 3)) x y z bytes)
        ])

  encoded_one :
      (x : ℕ) (rest : List ℕ)
      → x < 256
      → i + 4 < 2 ^ 31
      → b64_loop size i o
          (b64_char (shr x 2) ∷ b64_char (bit_and x 0x3 * 2 ^ 4) ∷ b'=' ∷ b'=' ∷ 0 ∷ rest)
        ≡ fit_groups (size - o) (x ∷ [])
  unfolding b64_loop case_2 read b64_val
  encoded_one x rest p room =
      rw
        (
          one_digit x,
          group_two size i o (x / 4) (x % 4 * 16 + 0) b'=' (b'=' ∷ 0 ∷ rest) _ room (omega arith)
              (omega arith) refl,
          first_byte_lem x 0 p (omega arith),
        )
        (elim (Bool-cases (leb size o)) [
          | inl full ↦
              let few : size - o < 1 = ground arith in
              rw full (fit_groups_full (size - o) x [] (omega arith) (omega arith))
          | inr here ↦
              let more : 1 ≤ size - o = ground arith in
              rw here (fit_groups_all (size - o) (x ∷ []) (omega arith))
        ])

  encoded_two :
      (x y : ℕ) (rest : List ℕ)
      → x < 256
      → y < 256
      → i + 4 < 2 ^ 31
      → b64_loop size i o (
          b64_char (shr x 2)
          ∷ b64_char (bit_or (bit_and x 0x3 * 2 ^ 4) (shr y 4))
          ∷ b64_char (bit_and y 0xF * 2 ^ 2)
          ∷ b'='
          ∷ 0
          ∷ rest)
        ≡ fit_groups (size - o) (x ∷ y ∷ [])
  unfolding b64_loop case_3 read b64_val
  encoded_two x y rest p q room =
      rw
        (
          second_digit x y q,
          two_digits y,
          group_three size i o (x / 4) (x % 4 * 16 + y / 16) (y % 16 * 4 + 0) b'=' (0 ∷ rest) _ room
              (omega arith) (omega arith) (omega arith) refl,
          first_byte_lem x (y / 16) p (omega arith),
          second_byte_lem (x % 4) y 0 q (omega arith),
        )
        (elim (Bool-cases (leb size (o + 1))) [
          | inl full ↦
              let few : size - o < 2 = ground arith in
              rw full (fit_groups_full (size - o) x (y ∷ []) (omega arith) (omega arith))
          | inr here ↦
              let more : 2 ≤ size - o = ground arith in
              rw here (fit_groups_all (size - o) (x ∷ y ∷ []) (omega arith))
        ])

  encoded_none :
      (rest : List ℕ) → i + 1 < 2 ^ 31 → b64_loop size i o (0 ∷ rest) ≡ fit_groups (size - o) []
  unfolding b64_loop b64_group read b64_val case_0
  encoded_none [] h =
      rw (next_char_lem i 0 (0 ∷ []) (omega arith)) (fit_groups_all (size - o) [] (omega arith))
  encoded_none (a ∷ []) h =
      rw (next_char_lem i 0 (0 ∷ a ∷ []) (omega arith)) (fit_groups_all (size - o) [] (omega arith))
  encoded_none (a ∷ b ∷ []) h =
      rw (next_char_lem i 0 (0 ∷ a ∷ b ∷ []) (omega arith))
        (fit_groups_all (size - o) [] (omega arith))
  encoded_none (a ∷ b ∷ c ∷ rest) h =
      rw (next_char_lem i 0 (0 ∷ a ∷ b ∷ c ∷ rest) (omega arith))
        (fit_groups_all (size - o) [] (omega arith))

pub b64_loop-b64_encode :
    (size i o : ℕ) (bytes rest : List ℕ)
    → IsBytes bytes
    → o ≤ size
    → i + length (b64_encode bytes) < 2 ^ 31
    → b64_loop size i o (b64_encode bytes ++ rest) ≡ fit_groups (size - o) bytes
unfolding b64_encode
b64_loop-b64_encode size i o [] rest b h k = encoded_none size i o h rest (omega arith)
b64_loop-b64_encode size i o (x ∷ []) rest b h k = encoded_one size i o h x rest b.0 (omega arith)
b64_loop-b64_encode size i o (x ∷ y ∷ []) rest b h k =
    encoded_two size i o h x y rest b.0 b.1.0 (omega arith)
b64_loop-b64_encode size i o (x ∷ y ∷ z ∷ bytes) rest b h k =
    encoded_three size i o h x y z (b64_encode bytes ++ rest) bytes b.0 b.1.0 b.1.1.0 (omega arith)
      (λ more. b64_loop-b64_encode size (i + 4) (o + 3) bytes rest b.1.1.1 more (omega arith))

-- `b64_decode` on the text of `b64_encode`, with anything behind its terminator: the bytes, if they
-- fit the space, and else as many groups of three as fit and `ENOMEM`, if the text has fewer than 2^31
-- bytes. No read leaves the text, and no counter overflows.
pub b64_decode-b64_encode :
    (size : ℕ) (bytes rest : List ℕ)
    → IsBytes bytes
    → length (b64_encode bytes) < 2 ^ 31
    → b64_decode (b64_encode bytes ++ rest) size ≡ fit_groups size bytes
unfolding b64_decode
b64_decode-b64_encode size bytes rest b k =
    b64_loop-b64_encode size 0 0 bytes rest b (omega arith) (omega arith)
    ∙ ap (λ t. fit_groups t bytes) (omega arith)
