-- ===== src/Inet/Ipv6/ToStr.antt =====
-- hlibc/inet.c: what `ipv6_to_str` writes.
use hlibc.Base.Parsed.{Parsed, accepted, undefined, ◌>>=◌}
use hlibc.Base.{
  ℕ, zero, suc, ◌+◌, ◌-◌, ◌/◌, ◌<◌, ◌≡◌, ◌⊎◌, inl, inr, refl, true, false, List, [], ◌∷◌, ◌++◌,
  length, get_or, ltb, leb, ◌==◌, if◌then◌else◌, all_below, all_below_sound, arith,
}
use hlibc.Bit.Bytes.{IsBytes}
use hlibc.Bits.{shr}
use hlibc.Inet.Ipv6.{
  part_cset, char_loop, skip_zeros, ipv6_to_str_part, run_loop, part_loop, ipv6_to_str,
}

get_or-lt : (bin : List ℕ) (i : ℕ) → IsBytes bin → get_or bin i 0 < 256
get_or-lt [] i h = omega arith
get_or-lt (b ∷ bin) zero h = h.0
get_or-lt (b ∷ bin) (suc i) h = get_or-lt bin i h.1

char_large : (n : ℕ) → n < 16 → leb 48 (get_or part_cset n 0) ≡ true
unfolding all_below
char_large n h = all_below_sound 16 (λ k. leb 48 (get_or part_cset k 0)) n refl h

part_undefined :
    (fuel : ℕ) (bin : List ℕ) (i : ℕ) → IsBytes bin → ipv6_to_str_part fuel bin i ≡ undefined
unfolding ipv6_to_str_part char_loop skip_zeros
part_undefined zero bin i h = refl
part_undefined (suc fuel) bin i h =
    let first = get_or part_cset (shr (get_or bin i 0) 4) 0 in
    let large : leb 48 first ≡ true =
      char_large (shr (get_or bin i 0) 4) (omega (arith, get_or-lt bin i h)) in
    let nonzero : (first == 0) ≡ false = ground arith in
    let outside : ltb first 17 ≡ false = ground arith in rw (nonzero, outside) refl

parts_undefined :
    (fuel rounds : ℕ) (bin : List ℕ) (i : ℕ)
    → IsBytes bin
    → 0 < rounds
    → part_loop fuel rounds bin i ≡ undefined
unfolding part_loop
parts_undefined fuel zero bin i h p = absurd (omega arith)
parts_undefined fuel (suc rounds) bin i h p = rw (part_undefined fuel bin i h) refl

abbrev Result : Parsed (List ℕ) → Type 0
Result r = (r ≡ undefined) ⊎ (r ≡ accepted (b':' ∷ 0 ∷ []))

after_run :
    (fuel : ℕ) (src : List ℕ) (start size front back : ℕ)
    → IsBytes src
    → front ≡ start / 2
    → back ≡ (16 - (start + size)) / 2
    → Result (
        part_loop fuel front src 0 >>= λ text. part_loop fuel back src (start + size) >>= λ more.
        accepted (text ++ ((if size == 0 then [] else b':' ∷ []) ++ (more ++ 0 ∷ []))))
unfolding part_loop
after_run fuel src start size (suc front) back h f b =
    inl (rw (parts_undefined fuel (suc front) src 0 h (omega arith)) refl)
after_run fuel src start size zero (suc back) h f b =
    inl (rw (parts_undefined fuel (suc back) src (start + size) h (omega arith)) refl)
after_run fuel src start size zero zero h f b =
    let some_run : (size == 0) ≡ false = ground arith in inr (rw some_run refl)

-- `ipv6_to_str` of 16 bytes leaves what C defines, or writes a single colon and the terminator: no
-- address is written as text, however long its loop may run.
pub ipv6_to_str_colon :
    (fuel : ℕ) (src : List ℕ)
    → IsBytes src
    → length src ≡ 16
    → (ipv6_to_str fuel src ≡ undefined) ⊎ (ipv6_to_str fuel src ≡ accepted (b':' ∷ 0 ∷ []))
unfolding ipv6_to_str
ipv6_to_str_colon fuel src h n =
    let m = run_loop 9 0 src (record { start = 0; max_start = 0; max_size = 0 }) in
    after_run fuel src m.max_start m.max_size (m.max_start / 2)
      ((16 - (m.max_start + m.max_size)) / 2) h refl refl
