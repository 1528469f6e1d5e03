-- ===== src/Inet/Ipv4.antt =====
-- hlibc/inet.c: `ipv4_to_str` and `ipv4_to_bin`. A read outside the text is a fault; `isdigit` is that
-- of the C locale.
use hlibc.Base.{
  ℕ, zero, suc, ◌+◌, ◌-◌, ◌*◌, ◌/◌, ◌%◌, Bool, not, ◌&&◌, List, [], ◌∷◌, ◌++◌, Option, none, some,
  length, get_or, set, ltb, leb, ◌==◌, if◌then◌else◌, Outcome, done, fault, ◌>>=◌, Status, success,
  einval,
}

-- The digits that are written for one byte.
unfoldable pub octet_to_str : ℕ → List ℕ
octet_to_str val =
    if ltb val 10
    then (b'0' + val) ∷ []
    else if ltb val 100
    then (b'0' + val / 10) ∷ (b'0' + val % 10) ∷ []
    else (b'0' + val / 100) ∷ (b'0' + val / 10 % 10) ∷ (b'0' + val % 10) ∷ []

-- The loop from byte `i` on, with `left` rounds left: each byte and a dot.
unfoldable pub octets_loop : ℕ → ℕ → List ℕ → List ℕ
octets_loop zero i src = []
octets_loop (suc left) i src = octet_to_str (get_or src i 0) ++ b'.' ∷ octets_loop left (i + 1) src

-- The last dot is overwritten by the terminator.
unfoldable pub ipv4_to_str : List ℕ → List ℕ
ipv4_to_str src = let out = octets_loop 4 0 src in set out (length out - 1) 0

abbrev pub isdigit : ℕ → Bool
isdigit c = leb b'0' c && leb c b'9'

-- One number of the address: its value and the text behind it, or nothing for `EINVAL`.
abbrev pub Octet : Type 0
Octet = Outcome (Option (ℕ × List ℕ))

unfoldable pub third_digit : ℕ → List ℕ → Octet
third_digit val [] = fault
third_digit val (c ∷ pos) =
    if isdigit c
    then (if ltb 255 (10 * val + c - b'0')
        then done none
        else done (some (10 * val + c - b'0', pos)))
    else done (some (val, c ∷ pos))

unfoldable pub second_digit : ℕ → List ℕ → Octet
second_digit val [] = fault
second_digit val (c ∷ pos) =
    if isdigit c then third_digit (10 * val + c - b'0') pos else done (some (val, c ∷ pos))

unfoldable pub octet_to_bin : List ℕ → Octet
octet_to_bin [] = fault
octet_to_bin (c ∷ pos) =
    if not (isdigit c)
    then done none
    else if c == b'0'
    then done (some (0, pos))
    else second_digit (10 * 0 + c - b'0') pos

abbrev pub Reply : Type 0
Reply = Outcome (Status × List ℕ)

-- `bin[i] = val`, and the loop goes on.
abbrev pub store : ℕ → Reply → Reply
store val (done (status, bin)) = done (status, val ∷ bin)
store val fault = fault

-- The test behind the loop.
unfoldable pub at_end : List ℕ → Reply
at_end [] = fault
at_end (c ∷ pos) = done (if c == 0 then success else einval, [])

-- `*pos++ != '.'`, before every number but the last.
unfoldable pub at_dot : List ℕ → ℕ → (List ℕ → Reply) → Reply
at_dot [] val next = fault
at_dot (c ∷ pos) val next = if not (c == b'.') then done (einval, []) else store val (next pos)

-- What a round does with its number: `EINVAL` if there is none.
unfoldable pub last_round : Option (ℕ × List ℕ) → Reply
last_round none = done (einval, [])
last_round (some (val, pos)) = store val (at_end pos)

unfoldable pub middle_round : (List ℕ → Reply) → Option (ℕ × List ℕ) → Reply
middle_round next none = done (einval, [])
middle_round next (some (val, pos)) = at_dot pos val next

-- The loop with `left` numbers to come behind the next one; the bytes that it writes.
unfoldable pub bin_loop : ℕ → List ℕ → Reply
bin_loop zero src = octet_to_bin src >>= last_round
bin_loop (suc left) src = octet_to_bin src >>= middle_round (bin_loop left)

unfoldable pub ipv4_to_bin : List ℕ → Reply
ipv4_to_bin src = bin_loop 3 src
