-- ===== src/Uri/Stable.antt =====
-- hlibc/uri.c: `normalize_with_cset` on its own result.
use hlibc.Base.Parsed.{
  Parsed, accepted, Ensures, holds, refusal, blame, Ensures-bind, accepted-Ensures,
}
use hlibc.Base.{
  ℕ, zero, suc, ◌+◌, ◌*◌, ◌%◌, ◌≤◌, ◌<◌, ◌≡◌, refl, sym, ap, ◌∙◌, Bool, true, false, not, ◌&&◌,
  ◌||◌, List, [], ◌∷◌, length, get_or, ltb, leb, ◌==◌, if◌then◌else◌, ℤ, pos, negsuc, all_below,
  all_below_sound, arith,
}
use hlibc.Strings.Hex.{hex_val}
use hlibc.Strings.Tables.{hex_val_table}
use hlibc.Uri.Parts.{cset_at}
use hlibc.Uri.Normalize.{
  toupper, nibble, written, escaped, normalize_round, normalize_loop, normalize_with_cset,
}
use hlibc.Uri.Text.{Ensures-if}

-- A set of ASCII characters without `%` and the terminator.
abbrev fits : List ℕ → ℕ → Bool
fits cset c = (ltb c 128 && (not (c == 0) && not (c == b'%'))) || get_or cset c 0 == 0

abbrev pub IsCset : List ℕ → Type 0
IsCset cset = all_below 256 (fits cset) ≡ true

abbrev small : ℤ → Bool
small (pos n) = ltb n 16
small (negsuc n) = true

small_digits : all_below 256 (λ k. small (get_or hex_val_table k (negsuc 0))) ≡ true
unfolding all_below
small_digits = refl

hex_val_small : (c x : ℕ) → hex_val c ≡ pos x → x < 16
unfolding hex_val
hex_val_small c x h =
    let k : small (get_or hex_val_table (c % 256) (negsuc 0)) ≡ true =
      all_below_sound 256 (λ k. small (get_or hex_val_table k (negsuc 0))) (c % 256) small_digits
        (omega arith) in
    ground (arith, sym (ap small h) ∙ k)

abbrev same_digit : ℤ → ℤ → Bool
same_digit (pos m) (pos n) = m == n
same_digit (negsuc m) (negsuc n) = m == n
same_digit (pos m) (negsuc n) = false
same_digit (negsuc m) (pos n) = false

same_digit_sound : (m n : ℤ) → same_digit m n ≡ true → m ≡ n
same_digit_sound (pos m) (pos n) h = ap pos (ground (arith, h))
same_digit_sound (negsuc m) (negsuc n) h = ap negsuc (ground (arith, h))
same_digit_sound (pos m) (negsuc n) h = absurd (ground (arith, h))
same_digit_sound (negsuc m) (pos n) h = absurd (ground (arith, h))

upper_digits : all_below 128 (λ k. same_digit (hex_val (toupper k)) (hex_val k)) ≡ true
unfolding all_below hex_val
upper_digits = refl

hex_val-toupper : (c : ℕ) → hex_val (toupper c) ≡ hex_val c
hex_val-toupper c =
    elim (leb 123 c) as (λ b. leb 123 c ≡ b → hex_val (toupper c) ≡ hex_val c) [
      | true ↦ λ h.
          let no : (leb b'a' c && leb c b'z') ≡ false = ground (arith, h) in ap hex_val (rw no refl)
      | false ↦ λ h. same_digit_sound (hex_val (toupper c)) (hex_val c) (
          all_below_sound 128 (λ k. same_digit (hex_val (toupper k)) (hex_val k)) c upper_digits
            (ground (arith, h)))
    ]
      refl

toupper-toupper : (c : ℕ) → toupper (toupper c) ≡ toupper c
toupper-toupper c = ground arith

-- What is written for `src`: no more, and the same again when it is read.
Again : List ℕ → List ℕ → Type 0
Again cset dest = (fuel : ℕ) → length dest ≤ fuel → normalize_loop fuel cset dest ≡ accepted dest

Normal : List ℕ → List ℕ → List ℕ → Type 0
Normal cset src dest = (length dest ≤ length src) × Again cset dest

-- A text that is not empty is read with some fuel.
fueled-Again :
    (cset dest : List ℕ) (c : ℕ)
    → ((fuel : ℕ)
        → length dest ≤ fuel
        → normalize_loop (suc fuel) cset (c ∷ dest) ≡ accepted (c ∷ dest))
    → Again cset (c ∷ dest)
unfolding Again
fueled-Again cset dest c h zero l = absurd (omega arith)
fueled-Again cset dest c h (suc fuel) l = h fuel (omega arith)

end-Normal : (cset src : List ℕ) → 1 ≤ length src → Normal cset src (0 ∷ [])
unfolding Normal Again normalize_loop normalize_round
end-Normal cset src l = (l, fueled-Again cset [] 0 (λ fuel h. refl))

-- A character of the set.
kept-Normal :
    (cset src dest from : List ℕ) (c : ℕ)
    → IsCset cset
    → c < 256
    → (get_or cset c 0 == 0) ≡ false
    → length from < length src
    → Normal cset from dest
    → Normal cset src (c ∷ dest)
unfolding Normal Again normalize_loop normalize_round cset_at
kept-Normal cset src dest from c f l h n (m, again) =
    let ok : fits cset c ≡ true = all_below_sound 256 (fits cset) c f l in
    let ascii : ltb c 128 ≡ true = ground (arith, ok, h) in
    let no_end : (c == 0) ≡ false = ground (arith, ok, h) in
    let no_percent : (c == b'%') ≡ false = ground (arith, ok, h) in
    (
      omega arith,
      fueled-Again cset dest c (λ fuel g. rw (no_end, no_percent, ascii, h, again fuel g) refl),
    )

-- Three characters that stay encoded.
encoded-Normal :
    (cset src dest from : List ℕ) (a b x y : ℕ)
    → hex_val a ≡ pos x
    → hex_val b ≡ pos y
    → (get_or cset (16 * x + y) 0 == 0) ≡ true
    → 3 + length from ≤ length src
    → Normal cset from dest
    → Normal cset src (b'%' ∷ toupper a ∷ toupper b ∷ dest)
unfolding Normal Again normalize_loop normalize_round escaped
encoded-Normal cset src dest from a b x y p q h n (m, again) = (
  omega arith,
  fueled-Again cset (toupper a ∷ toupper b ∷ dest) b'%' (λ fuel g.
      let p' = hex_val-toupper a ∙ p in
      let q' = hex_val-toupper b ∙ q in
      rw (p', q', again fuel (omega arith), h, toupper-toupper a, toupper-toupper b) refl),
)

written-Normal :
    (cset src dest from : List ℕ) (a b x y : ℕ)
    → IsCset cset
    → hex_val a ≡ pos x
    → hex_val b ≡ pos y
    → 3 + length from ≤ length src
    → Normal cset from dest
    → Normal cset src (written cset (16 * x + y) a b dest)
written-Normal cset src dest from a b x y f p q n d =
    let v = 16 * x + y in
    let byte : v < 256 = omega (arith, hex_val_small a x p, hex_val_small b y q) in
    elim (get_or cset v 0 == 0)
        as (λ t.
          (get_or cset v 0 == 0) ≡ t
          → Normal cset src (if not t then v ∷ dest else b'%' ∷ toupper a ∷ toupper b ∷ dest)) [
            | true ↦ λ h. encoded-Normal cset src dest from a b x y p q h n d
            | false ↦ λ h. kept-Normal cset src dest from v f byte h (omega arith) d
          ]
      refl

-- A digit with its value.
nibble-On : (n : ℤ) → Ensures Unit (λ x. n ≡ pos x) (nibble n)
nibble-On (pos n) = holds refl
nibble-On (negsuc n) = refusal

module _ (cset : List ℕ) (f : IsCset cset) (next : List ℕ → Parsed (List ℕ))
    (rest : (src : List ℕ) → Ensures Unit (Normal cset src) (next src)) where
  escaped-Normal :
      (c : ℕ) (src : List ℕ) → Ensures Unit (Normal cset (c ∷ src)) (escaped next cset src)
  unfolding escaped
  escaped-Normal c [] = blame tt
  escaped-Normal c (a ∷ []) = Ensures-bind (nibble-On (hex_val a)) (λ x p. blame tt)
  escaped-Normal c (a ∷ b ∷ src) = Ensures-bind (nibble-On (hex_val a)) (λ x p.
      Ensures-bind (nibble-On (hex_val b)) (λ y q. Ensures-bind (rest src) (λ dest d.
        holds (written-Normal cset (c ∷ a ∷ b ∷ src) dest src a b x y f p q (omega arith) d))))

  round-Normal : (src : List ℕ) → Ensures Unit (Normal cset src) (normalize_round next cset src)
  unfolding normalize_round cset_at
  round-Normal [] = blame tt
  round-Normal (c ∷ src) =
      Ensures-if (c == 0) (λ h. holds (end-Normal cset (c ∷ src) (omega arith)))
        (λ h.
          Ensures-if (c == b'%') (λ g. escaped-Normal c src)
            (λ g.
              Ensures-bind {P = λ b. b ≡ true → (c < 256) × ((get_or cset c 0 == 0) ≡ false)}
                (Ensures-if (ltb c 128) (λ l. holds (λ e. (ground (arith, l), ground (arith, e))))
                  (λ l. blame tt))
                (λ b m.
                  Ensures-if b
                    (λ e. Ensures-bind (rest src) (λ dest d.
                      holds
                        (kept-Normal cset (c ∷ src) dest src c f (m e).0 (m e).1 (omega arith) d)))
                    (λ e. refusal))))

loop-Normal :
    (fuel : ℕ) (cset src : List ℕ)
    → IsCset cset
    → Ensures Unit (Normal cset src) (normalize_loop fuel cset src)
unfolding normalize_loop
loop-Normal zero cset src f = blame tt
loop-Normal (suc fuel) cset src f =
    round-Normal cset f (normalize_loop fuel cset) (λ pos. loop-Normal fuel cset pos f) src

-- A text that was normalised with a set of ASCII characters, `%` and the terminator not in it, fits the
-- room of the source, and it is normalised to itself.
pub normalize_with_cset_idempotent :
    (src cset dest : List ℕ)
    → IsCset cset
    → normalize_with_cset src cset ≡ accepted dest
    → (length dest ≤ length src) × (normalize_with_cset dest cset ≡ accepted dest)
unfolding normalize_with_cset Normal Again
normalize_with_cset_idempotent src cset dest f h =
    let (room, again) = accepted-Ensures (loop-Normal (length src) cset src f) h in
    (room, again (length dest) (omega arith))
