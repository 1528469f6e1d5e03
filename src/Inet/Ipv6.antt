-- ===== src/Inet/Ipv6.antt =====
-- hlibc/inet.c: `ipv6_to_bin`, `ipv6_to_str` and `ipv6_norm`. `dest` is a buffer of 16 bytes with any
-- contents; a write outside it is undefined, and so is a read outside the text. `isxdigit` is that of
-- the C locale.
pub mod Groups
pub mod Laws
pub mod Overflow
pub mod ToStr
mod Examples
use hlibc.Base.Parsed.{Parsed, accepted, refused, undefined, ◌>>=◌, peek}
use hlibc.Base.{
  ℕ, zero, suc, ◌+◌, ◌-◌, ◌*◌, bit_and, Bool, true, false, not, ◌&&◌, ◌||◌, List, [], ◌∷◌, ◌++◌,
  Option, none, some, length, take, drop, get_or, replicate, ltb, leb, ◌==◌, if◌then◌else◌, Outcome,
  done, fault, Status, success, einval, enomem, ℤ, pos, negsuc,
}
use hlibc.Bits.{shr}
use hlibc.Strings.Hex.{hex_val}
use hlibc.Inet.Ipv4.{isdigit, ipv4_to_bin}

abbrev pub isxdigit : ℕ → Bool
isxdigit c = isdigit c || (leb b'A' c && leb c b'F' || leb b'a' c && leb c b'f')

-- `hex_val` of a character that is a hexadecimal digit.
abbrev pub nonnegative : ℤ → ℕ
nonnegative (pos n) = n
nonnegative (negsuc n) = 0

abbrev pub digit : ℕ → ℕ
digit c = nonnegative (hex_val c)

-- Stores at `buf + i`: `memmove`, `memzero` and single bytes.
unfoldable pub write : List ℕ → ℕ → List ℕ → Parsed (List ℕ)
write buf i bytes =
    if leb (i + length bytes) (length buf)
    then accepted (take i buf ++ (bytes ++ drop (i + length bytes) buf))
    else undefined

-- The loop over the other digits of a group, with `left` rounds left: the value, whether the group
-- belongs to an IPv4 address, and the text behind the digits.
unfoldable pub more_digits : ℕ → ℕ → List ℕ → Parsed (ℕ × Bool × List ℕ)
more_digits zero v src = accepted (v, false, src)
more_digits (suc left) v [] = undefined
more_digits (suc left) v (c ∷ src) =
    if isxdigit c then more_digits left (16 * v + digit c) src else accepted (v, c == b'.', c ∷ src)

pub record Scan : Type 0 where
  pub src : List ℕ
  pub bin : List ℕ
  pub count : ℕ
  pub comp : Option ℕ
  pub mapped : Bool

-- What the loop does after a round.
pub data Next : Type 0 where
  go_on stop : Scan → Next

abbrev pub is_at : Option ℕ → ℕ → Bool
is_at none count = false
is_at (some k) count = k == count

abbrev pub all_zero : ℕ → List ℕ → Bool
all_zero zero bin = true
all_zero (suc n) [] = true
all_zero (suc n) (b ∷ bin) = b == 0 && all_zero n bin

-- What `ipv4_to_bin` has stored.
abbrev pub stored : Outcome (Status × List ℕ) → Parsed (List ℕ)
stored fault = undefined
stored (done (success, bytes)) = accepted bytes
stored (done (einval, bytes)) = refused
stored (done (enomem, bytes)) = refused

-- The end of the address in IPv4 form, from `start` on.
unfoldable pub mapped_part : Scan → Option ℕ → List ℕ → Parsed Next
mapped_part s comp start =
    if (ltb s.count 2 || ltb 12 s.count)
      || ((not (get_or s.bin (s.count - 1) 0 == 0xFF) || not (get_or s.bin (s.count - 2) 0 == 0xFF))
          || is_at comp s.count)
    then refused
    else if not (all_zero (s.count - 2) s.bin)
    then refused
    else stored (ipv4_to_bin start) >>= λ bytes. write s.bin s.count bytes >>= λ bin.
        accepted (
          stop (record { src = start; bin = bin; count = s.count + 4; comp = comp; mapped = true }))

-- One group of digits from `start` on.
unfoldable pub group : Scan → Option ℕ → List ℕ → Parsed Next
group s comp start = peek start >>= λ c.
    if not (isxdigit c)
    then refused
    else (more_digits 3 (digit c) (drop 1 start) >>= λ (v, mapped, rest).
        if mapped
        then mapped_part s comp start
        else (write s.bin s.count (bit_and (shr v 4) 0xFF ∷ bit_and v 0xFF ∷ []) >>= λ bin.
            accepted (
              go_on (record {
                src = rest;
                bin = bin;
                count = s.count + 2;
                comp = comp;
                mapped = false;
              }))))

-- `::`, with the second colon at the start of `src`.
unfoldable pub double_colon : Scan → List ℕ → Parsed Next
double_colon s src = elim s.comp [
  | some k ↦ refused
  | none ↦ peek (drop 1 src) >>= λ c.
      if c == 0
      then accepted (stop (record s { src = drop 1 src; comp = some s.count }))
      else group s (some s.count) (drop 1 src)
]

unfoldable pub round : Scan → Parsed Next
round s = peek s.src >>= λ c0.
    let src = if c0 == b':' then drop 1 s.src else s.src in
    peek src >>= λ c1. if c1 == b':' then double_colon s src else group s s.comp src

abbrev pub room : Scan → Bool
room s = ltb (s.count + elim s.comp [ none ↦ 0 | some k ↦ 2 ]) 16

-- Every round but the last stores two bytes: eight are enough.
unfoldable pub scan : ℕ → Scan → Parsed Scan
scan zero s = accepted s
scan (suc fuel) s = peek s.src >>= λ c.
    if not (c == 0) && room s
    then (round s >>= λ next. elim next [ go_on s' ↦ scan fuel s' | stop s' ↦ accepted s' ])
    else accepted s

-- Behind the loop.
unfoldable pub expand : Scan → Parsed (List ℕ)
expand s = elim s.comp [
  | some k ↦
      if leb 16 s.count
      then refused
      else (let len = 16 - s.count in
          write s.bin (k + len) (take len (drop k s.bin)) >>= λ bin. write bin k (replicate len 0))
  | none ↦ if ltb s.count 16 then refused else accepted s.bin
]

unfoldable pub finish : Scan → Parsed (List ℕ)
finish s =
    if s.mapped then expand s else (peek s.src >>= λ c. if not (c == 0) then refused else expand s)

-- The bytes in `dest` afterwards.
unfoldable pub ipv6_to_bin : List ℕ → List ℕ → Parsed (List ℕ)
ipv6_to_bin src dest =
    let start : Scan = record { src = src; bin = dest; count = 0; comp = none; mapped = false } in
    let run = scan 8 start >>= finish in
    peek src >>= λ c0.
    if c0 == b':' then (peek (drop 1 src) >>= λ c1. if c1 == b':' then run else refused) else run

-- `hex_cset` of `ipv6_to_str_part`, with its terminator.
abbrev pub part_cset : List ℕ
part_cset =
    b'0' ∷ b'1' ∷ b'2' ∷ b'3' ∷ b'4' ∷ b'5' ∷ b'6' ∷ b'7' ∷ b'8' ∷ b'9' ∷ b'a' ∷ b'b' ∷ b'c' ∷ b'd'
    ∷ b'e' ∷ b'f' ∷ 0 ∷ []

-- `while (i < 4) *dest++ = hex_cset[vals[i]]`: nothing changes `i`, and a loop that does not end
-- writes outside `dest`.
unfoldable pub char_loop : ℕ → List ℕ → ℕ → List ℕ → Parsed (List ℕ)
char_loop zero vals i out = undefined
char_loop (suc fuel) vals i out =
    let next = char_loop fuel vals i (out ++ get_or part_cset (get_or vals i 0) 0 ∷ []) in
    if ltb i 4
    then (if ltb (get_or vals i 0) (length part_cset) then next else undefined)
    else accepted out

-- The first loop of `ipv6_to_str_part`, from `i` on with `rounds` rounds left.
unfoldable pub skip_zeros : ℕ → List ℕ → ℕ → ℕ
skip_zeros zero vals i = i
skip_zeros (suc rounds) vals i = if get_or vals i 0 == 0 then skip_zeros rounds vals (i + 1) else i

-- The text of the two bytes at `i`. `fuel` bounds the rounds of the loop that writes.
unfoldable pub ipv6_to_str_part : ℕ → List ℕ → ℕ → Parsed (List ℕ)
ipv6_to_str_part fuel bin i =
    let char : ℕ → ℕ = λ n. get_or part_cset n 0 in
    let vals =
      char (shr (get_or bin i 0) 4)
      ∷ char (bit_and (get_or bin i 0) 15)
      ∷ char (shr (get_or bin (i + 1) 0) 4)
      ∷ char (bit_and (get_or bin (i + 1) 0) 15)
      ∷ [] in
    char_loop fuel vals (skip_zeros 3 vals 0) []

pub record Longest : Type 0 where
  pub start : ℕ
  pub max_start : ℕ
  pub max_size : ℕ

-- The loop that looks for the longest run, from `i` on.
unfoldable pub run_loop : ℕ → ℕ → List ℕ → Longest → Longest
run_loop zero i bin m = m
run_loop (suc rounds) i bin m =
    let size = i - m.start in
    run_loop rounds (i + 2) bin (
      if i == 16 || (not (get_or bin i 0 == 0) && not (get_or bin (i + 1) 0 == 0))
      then (if ltb m.max_size size
          then record { start = i; max_start = m.start; max_size = size }
          else record m { start = i })
      else m)

-- The parts from byte `i` on, with a colon behind each.
unfoldable pub part_loop : ℕ → ℕ → List ℕ → ℕ → Parsed (List ℕ)
part_loop fuel zero bin i = accepted []
part_loop fuel (suc rounds) bin i = ipv6_to_str_part fuel bin i >>= λ text.
    part_loop fuel rounds bin (i + 2) >>= λ more. accepted (text ++ b':' ∷ more)

-- All runs start at an even byte and have an even size.
unfoldable pub ipv6_to_str : ℕ → List ℕ → Parsed (List ℕ)
ipv6_to_str fuel src =
    let m = run_loop 9 0 src (record { start = 0; max_start = 0; max_size = 0 }) in
    let behind = m.max_start + m.max_size in
    part_loop fuel (shr m.max_start 1) src 0 >>= λ front.
    part_loop fuel (shr (16 - behind) 1) src behind >>= λ back.
    accepted (front ++ ((if m.max_size == 0 then [] else b':' ∷ []) ++ (back ++ 0 ∷ [])))

unfoldable pub ipv6_norm : ℕ → List ℕ → List ℕ → Parsed (List ℕ)
ipv6_norm fuel src bin = ipv6_to_bin src bin >>= ipv6_to_str fuel
