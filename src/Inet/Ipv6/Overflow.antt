-- ===== src/Inet/Ipv6/Overflow.antt =====
-- hlibc/inet.c: `::` in `ipv6_to_bin`, and the bytes that are moved for it.
use hlibc.Base.Parsed.{accepted, undefined, ◌>>=◌}
use hlibc.Base.{
  ℕ, zero, suc, ◌+◌, ◌-◌, ◌*◌, ◌≤◌, ◌<◌, ◌≡◌, refl, ap, ◌∙◌, true, false, List, [], ◌∷◌, ◌++◌,
  Option, none, some, length, length-append, length-take, length-drop, take, drop, All, ltb, leb,
  ◌==◌, arith,
}
use hlibc.Inet.Ipv6.{write, double_colon, round, scan, expand, finish, ipv6_to_bin}
use hlibc.Inet.Ipv6.Groups.{
  IsGroup, bytes, group_bytes, joined, behind_colons, at, length-bytes, scan-joined,
  scan-behind_colons, behind_colons-Ends, group_lem,
}

scan_end :
    (fuel : ℕ) (rest front old : List ℕ) (comp : Option ℕ)
    → scan fuel (at (0 ∷ rest) front old comp) ≡ accepted (at (0 ∷ rest) front old comp)
unfolding scan
scan_end zero rest front old comp = refl
scan_end (suc fuel) rest front old comp = refl

-- The move, with `k` bytes before `::` and `count` in all.
finish_overflow :
    (rest front old : List ℕ) (k : ℕ)
    → k ≤ length front
    → length front + length old ≡ 16
    → 2 * length front < 16 + k
    → finish (at (0 ∷ rest) front old (some k)) ≡ undefined
unfolding finish expand write
finish_overflow rest front old k le l b =
    let room_left : leb 16 (length front) ≡ false = ground arith in
    let whole = front ++ old in
    let w : length whole ≡ 16 = omega (arith, length-append front old) in
    let n = 16 - length front in
    let moved = take n (drop k whole) in
    let m : length moved ≡ n = omega (arith, length-take n (drop k whole), length-drop k whole) in
    let outside : leb (k + n + length moved) (length whole) ≡ false = ground (arith, m, w) in
    rw (room_left, outside) refl

-- `::` behind `front`, and groups behind it.
overflow :
    (hs : List (List ℕ)) (fuel : ℕ) (rest front old : List ℕ)
    → All IsGroup hs
    → length hs ≤ suc fuel
    → length front + length old ≡ 16
    → length front + 4 * length hs < 16
    → scan (suc fuel) (at (b':' ∷ b':' ∷ joined hs (0 ∷ rest)) front old none) >>= finish
      ≡ undefined
unfolding scan round double_colon
overflow [] fuel rest front old h f l b =
    let roomy : ltb (length front + 0) 16 ≡ true = ground arith in
    rw roomy (finish_overflow rest front old (length front) (omega arith) l (omega arith))
overflow ([] ∷ hs) fuel rest front old h f l b = absurd (omega (arith, h.0.0))
overflow ((d ∷ g) ∷ hs) fuel rest front old (h0, h) f l b =
    let roomy : ltb (length front + 0) 16 ≡ true = ground arith in
    let nonzero : (d == 0) ≡ false = ground (arith, h0.2.0) in
    let k = length front in
    let g' = d ∷ g in
    let next = front ++ group_bytes g' in
    let size : length next ≡ k + 2 = omega (arith, length-append front (group_bytes g')) in
    let all = next ++ bytes hs in
    let size' : length all ≡ k + 2 + 2 * length hs =
      omega (arith, size, length-append next (bytes hs), length-bytes hs) in
    let old' = drop (2 * length hs) (drop 2 old) in
    let first =
      group_lem (b':' ∷ b':' ∷ joined (g' ∷ hs) (0 ∷ rest)) g' (behind_colons hs (0 ∷ rest)) front
        old none (some k) h0 (behind_colons-Ends hs (0 ∷ rest) (refl, refl)) (omega arith) in
    let others =
      scan-behind_colons hs fuel (fuel - length hs) (0 ∷ rest) next (drop 2 old) (some k) h
        (refl, refl) (omega arith) (omega (arith, size)) (omega (arith, size, length-drop 2 old)) in
    rw (roomy, nonzero, first, others, scan_end (fuel - length hs) rest all old' (some k))
      (finish_overflow rest all old' k (omega (arith, size'))
        (omega (arith, size', length-drop (2 * length hs) (drop 2 old), length-drop 2 old))
        (omega (arith, size')))

-- An address with `::`, with `k` groups before it and `m` behind it: if k + 2 m is below 8, as in the
-- texts "::1" and "fe80::1", then bytes are moved to addresses outside `dest`.
pub ipv6_to_bin-overflow :
    (gs hs : List (List ℕ)) (rest dest : List ℕ)
    → All IsGroup gs
    → All IsGroup hs
    → length gs + 2 * length hs < 8
    → length dest ≡ 16
    → ipv6_to_bin (joined gs (b':' ∷ b':' ∷ joined hs (0 ∷ rest))) dest ≡ undefined
unfolding ipv6_to_bin
ipv6_to_bin-overflow [] hs rest dest h k n l =
    overflow hs 7 rest [] dest k (omega arith) (omega arith) (omega arith)
ipv6_to_bin-overflow ([] ∷ gs) hs rest dest h k n l = absurd (omega (arith, h.0.0))
ipv6_to_bin-overflow ((d ∷ g) ∷ gs) hs rest dest h k n l =
    let no_colon : (d == b':') ≡ false = ground (arith, h.0.2.0) in
    let g' = d ∷ g in
    let end = b':' ∷ b':' ∷ joined hs (0 ∷ rest) in
    let left = 6 - length gs in
    let fuel : 8 ≡ suc (length gs + suc left) = omega arith in
    let front = bytes (g' ∷ gs) in
    let size = length-bytes (g' ∷ gs) in
    rw no_colon (
      ap (λ t. scan t (at (joined (g' ∷ gs) end) [] dest none) >>= finish) fuel
      ∙ ap (λ t. t >>= finish)
          (scan-joined g' gs (suc left) end dest h (refl, refl) (omega arith) l)
      ∙ overflow hs left rest front (drop (2 * length (g' ∷ gs)) dest) k (omega arith)
          (omega (arith, size, length-drop (2 * length (g' ∷ gs)) dest)) (omega (arith, size)))
