-- ===== src/Inet/Ipv6/Groups.antt =====
-- The loop of `ipv6_to_bin` on groups of hexadecimal digits.
use mathlib.Core.List.{append_assoc, append-nil}
use hlibc.Base.Parsed.{accepted}
use hlibc.Base.{
  ℕ, zero, suc, ◌+◌, ◌*◌, ◌≤◌, ◌<◌, ◌≡◌, refl, sym, ap, ap₂, ◌∙◌, bit_and, true, false, List, [],
  ◌∷◌, ◌++◌, Option, none, some, length, length-append, length-drop, drop, take-append, drop-append,
  drop-drop, All, ltb, leb, ◌==◌, arith,
}
use hlibc.Bits.{shr}
use hlibc.Inet.Ipv6.{isxdigit, digit, write, more_digits, Scan, go_on, group, round, scan}

-- One to four digits.
abbrev pub IsGroup : List ℕ → Type 0
IsGroup g = (0 < length g) × (length g ≤ 4) × All (λ c. isxdigit c ≡ true) g

abbrev pub value : ℕ → List ℕ → ℕ
value v [] = v
value v (c ∷ g) = value (16 * v + digit c) g

-- What is stored for a group, and for some groups.
abbrev pub group_bytes : List ℕ → List ℕ
group_bytes g = bit_and (shr (value 0 g) 4) 0xFF ∷ bit_and (value 0 g) 0xFF ∷ []

abbrev pub bytes : List (List ℕ) → List ℕ
bytes [] = []
bytes (g ∷ gs) = group_bytes g ++ bytes gs

-- The text of groups, each behind a colon, and of groups with colons between; then `end`.
abbrev pub behind_colons : List (List ℕ) → List ℕ → List ℕ
behind_colons [] end = end
behind_colons (g ∷ gs) end = b':' ∷ (g ++ behind_colons gs end)

abbrev pub joined : List (List ℕ) → List ℕ → List ℕ
joined [] end = end
joined (g ∷ gs) end = g ++ behind_colons gs end

-- A character that ends a group: neither a digit nor a dot.
abbrev pub Ends : List ℕ → Type 0
Ends [] = ⊥
Ends (c ∷ rest) = (isxdigit c ≡ false) × ((c == b'.') ≡ false)

more_digits-append :
    (left v : ℕ) (g end : List ℕ)
    → length g ≤ left
    → All (λ c. isxdigit c ≡ true) g
    → Ends end
    → more_digits left v (g ++ end) ≡ accepted (value v g, false, end)
unfolding more_digits
more_digits-append left v g [] h a e = elim e [ ]
more_digits-append zero v [] (c ∷ end) h a e = refl
more_digits-append (suc left) v [] (c ∷ end) h a e = rw (e.0, e.1) refl
more_digits-append zero v (d ∷ g) (c ∷ end) h a e = absurd (omega arith)
more_digits-append (suc left) v (d ∷ g) (c ∷ end) h a e =
    rw (a.0) (more_digits-append left (16 * v + digit d) g (c ∷ end) (omega arith) a.1 e)

pub behind_colons-Ends :
    (gs : List (List ℕ)) (end : List ℕ) → Ends end → Ends (behind_colons gs end)
behind_colons-Ends [] end e = e
behind_colons-Ends (g ∷ gs) end e = (refl, refl)

pub length-bytes : (gs : List (List ℕ)) → length (bytes gs) ≡ 2 * length gs
length-bytes [] = refl
length-bytes (g ∷ gs) = omega (arith, length-bytes gs)

-- The state with `front` stored, and `old` behind it.
abbrev pub at : List ℕ → List ℕ → List ℕ → Option ℕ → Scan
at src front old comp = record {
  src = src;
  bin = front ++ old;
  count = length front;
  comp = comp;
  mapped = false;
}

pub write-append :
    (front old new : List ℕ) (i : ℕ)
    → length front ≡ i
    → length new ≤ length old
    → write (front ++ old) i new ≡ accepted ((front ++ new) ++ drop (length new) old)
unfolding write
write-append front old new i h k =
    let fits : leb (i + length new) (length (front ++ old)) ≡ true =
      ground (arith, length-append front old) in
    let behind : drop (i + length new) (front ++ old) ≡ drop (length new) old =
      sym (drop-drop (length new) i (front ++ old))
      ∙ ap (drop (length new)) (drop-append i front old h) in
    rw (fits, take-append i front old h, behind)
      (ap accepted (sym (append_assoc front new (drop (length new) old))))

pub group_lem :
    (src g end front old : List ℕ) (comp' comp : Option ℕ)
    → IsGroup g
    → Ends end
    → 2 ≤ length old
    → group (at src front old comp') comp (g ++ end)
      ≡ accepted (go_on (at end (front ++ group_bytes g) (drop 2 old) comp))
unfolding group
group_lem src [] end front old comp' comp h e l = absurd (omega arith)
group_lem src (d ∷ g) end front old comp' comp (p, q, a) e l =
    let first : 16 * 0 + digit d ≡ digit d = omega arith in
    let size : length front + 2 ≡ length (front ++ group_bytes (d ∷ g)) =
      omega (arith, length-append front (group_bytes (d ∷ g))) in
    rw
      (
        a.0,
        more_digits-append 3 (digit d) g end (omega arith) a.1 e,
        write-append front old
            (bit_and (shr (value (digit d) g) 4) 0xFF ∷ bit_and (value (digit d) g) 0xFF ∷ [])
            (length front) refl l,
        first,
      )
      (ap
        (λ n. accepted (
          go_on (record {
            src = end;
            bin =
                (front
                  ++ bit_and (shr (value (digit d) g) 4) 0xFF
                    ∷ bit_and (value (digit d) g) 0xFF
                    ∷ [])
                ++ drop 2 old;
            count = n;
            comp = comp;
            mapped = false;
          })))
        (size
          ∙ ap
              (λ v.
                length (front ++ bit_and (shr (value v g) 4) 0xFF ∷ bit_and (value v g) 0xFF ∷ []))
              first))

-- A round on a group behind a colon.
round_lem :
    (g end front old : List ℕ) (comp : Option ℕ)
    → IsGroup g
    → Ends end
    → 2 ≤ length old
    → round (at (b':' ∷ (g ++ end)) front old comp)
      ≡ accepted (go_on (at end (front ++ group_bytes g) (drop 2 old) comp))
unfolding round
round_lem [] end front old comp h e l = absurd (omega arith)
round_lem (d ∷ g) end front old comp h e l =
    let no_colon : (d == b':') ≡ false = ground (arith, h.2.0) in
    rw (no_colon, group_lem (b':' ∷ (d ∷ g ++ end)) (d ∷ g) end front old comp comp h e l) refl

abbrev pub taken : Option ℕ → ℕ
taken none = 0
taken (some k) = 2

-- The loop on groups behind colons, with room for them.
pub scan-behind_colons :
    (gs : List (List ℕ)) (fuel k : ℕ) (end front old : List ℕ) (comp : Option ℕ)
    → All IsGroup gs
    → Ends end
    → fuel ≡ length gs + k
    → length front + 2 * length gs + taken comp ≤ 16
    → length front + length old ≡ 16
    → scan fuel (at (behind_colons gs end) front old comp)
      ≡ scan k (at end (front ++ bytes gs) (drop (2 * length gs) old) comp)
unfolding scan
scan-behind_colons [] fuel k end front old comp h e f r l =
    let e' : fuel ≡ k = omega (arith, f) in
    ap (λ t. scan t (at end front old comp)) e'
    ∙ ap (λ t. scan k (at end t old comp)) (sym (append-nil front))
scan-behind_colons (g ∷ gs) zero k end front old comp h e f r l = absurd (omega arith)
scan-behind_colons (g ∷ gs) (suc fuel) k end front old comp h e f r l =
    let roomy : ltb (length front + taken comp) 16 ≡ true = ground arith in
    let next = front ++ group_bytes g in
    let size : length next ≡ length front + 2 =
      omega (arith, length-append front (group_bytes g)) in
    let count : 2 + 2 * length gs ≡ 2 * suc (length gs) = omega arith in
    rw
      (
        roomy,
        round_lem g (behind_colons gs end) front old comp h.0 (behind_colons-Ends gs end e)
            (omega arith),
      )
      (scan-behind_colons gs fuel k end next (drop 2 old) comp h.1 e (omega arith)
          (omega (arith, size)) (omega (arith, size, length-drop 2 old))
        ∙ ap₂ (λ t u. scan k (at end t u comp)) (append_assoc front (group_bytes g) (bytes gs))
            (drop-drop (2 * length gs) 2 old ∙ ap (λ t. drop t old) count))

-- The first group, which no colon stands before.
round_first :
    (g end old : List ℕ)
    → IsGroup g
    → Ends end
    → 2 ≤ length old
    → round (at (g ++ end) [] old none)
      ≡ accepted (go_on (at end (group_bytes g) (drop 2 old) none))
unfolding round
round_first [] end old h e l = absurd (omega arith)
round_first (d ∷ g) end old h e l =
    let no_colon : (d == b':') ≡ false = ground (arith, h.2.0) in
    rw (no_colon, no_colon) (group_lem (d ∷ g ++ end) (d ∷ g) end [] old none none h e l)

-- The loop from the start of the text.
pub scan-joined :
    (g : List ℕ) (gs : List (List ℕ)) (k : ℕ) (end dest : List ℕ)
    → All IsGroup (g ∷ gs)
    → Ends end
    → 2 * length (g ∷ gs) ≤ 16
    → length dest ≡ 16
    → scan (suc (length gs + k)) (at (joined (g ∷ gs) end) [] dest none)
      ≡ scan k (at end (bytes (g ∷ gs)) (drop (2 * length (g ∷ gs)) dest) none)
unfolding scan
scan-joined [] gs k end dest h e r l = absurd (omega (arith, h.0.0))
scan-joined (d ∷ g) gs k end dest h e r l =
    let nonzero : (d == 0) ≡ false = ground (arith, h.0.2.0) in
    let count : 2 + 2 * length gs ≡ 2 * suc (length gs) = omega arith in
    rw
      (
        nonzero,
        round_first (d ∷ g) (behind_colons gs end) dest h.0 (behind_colons-Ends gs end e)
            (omega arith),
      )
      (scan-behind_colons gs (length gs + k) k end (group_bytes (d ∷ g)) (drop 2 dest) none h.1 e
          refl (omega arith) (omega (arith, length-drop 2 dest))
        ∙ ap (λ t. scan k (at end (bytes ((d ∷ g) ∷ gs)) t none))
            (drop-drop (2 * length gs) 2 dest ∙ ap (λ t. drop t dest) count))
