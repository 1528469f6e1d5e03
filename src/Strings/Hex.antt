-- ===== src/Strings/Hex.antt =====
-- hlibc/string.c: `hex_val`, `hex_encode`, `hex_encode_byte` and `hex_decode`.
use hlibc.Base.{
  ℕ, ◌+◌, ◌*◌, ◌%◌, ◌^◌, bit_and, List, [], ◌∷◌, ◌++◌, get_or, ◌==◌, if◌then◌else◌, ℤ, pos, negsuc,
  Outcome, done, fault, int_step, Status, success, einval, enomem,
}
use hlibc.Bits.{shr}
use hlibc.Strings.Tables.{hex_val_table, hex_cset}

-- The argument is cast to `unsigned char`.
unfoldable pub hex_val : ℕ → ℤ
hex_val c = get_or hex_val_table (c % 256) (negsuc 0)

-- The two bytes written to `dest`.
unfoldable pub hex_encode_byte : ℕ → List ℕ
hex_encode_byte src = get_or hex_cset (shr src 4) 0 ∷ get_or hex_cset (bit_and src 15) 0 ∷ []

-- The bytes written to `dest`: two for each byte of the source, and the terminator.
unfoldable pub hex_encode : List ℕ → List ℕ
hex_encode [] = 0 ∷ []
hex_encode (b ∷ src) = hex_encode_byte b ++ hex_encode src

-- A byte is written, and the loop goes on.
abbrev pub prepend : ℕ → Outcome (Status × List ℕ) → Outcome (Status × List ℕ)
prepend b (done (status, out)) = done (status, b ∷ out)
prepend b fault = fault

-- The second digit of a pair whose first is `a`; `next` is the rest of the loop.
unfoldable pub hex_pair : ℕ → ℕ → ℕ → ℕ → Outcome (Status × List ℕ) → Outcome (Status × List ℕ)
hex_pair size i a d next = elim (hex_val d) [
  | negsuc n ↦ done (einval, [])
  | pos b ↦
      if i == size
      then done (enomem, [])
      else int_step (i + 1) (prepend ((a * 2 ^ 4 + b) % 256) next)
]

-- The loop at `out[i]`, where `i` is an `int`: the status, and the bytes that it writes from there on.
unfoldable pub hex_loop : ℕ → ℕ → List ℕ → Outcome (Status × List ℕ)
hex_loop size i [] = fault
hex_loop size i (c ∷ []) =
    if c == 0
    then done (success, [])
    else elim (hex_val c) [ negsuc n ↦ done (einval, []) | pos a ↦ fault ]
hex_loop size i (c ∷ d ∷ src) =
    let next = hex_loop size (i + 1) src in
    if c == 0
    then done (success, [])
    else elim (hex_val c) [ negsuc n ↦ done (einval, []) | pos a ↦ hex_pair size i a d next ]

unfoldable pub hex_decode : List ℕ → ℕ → Outcome (Status × List ℕ)
hex_decode src size = hex_loop size 0 src
