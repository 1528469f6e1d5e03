-- ===== src/Strings/Errors.antt =====
-- include/hlibc/string.h: `strerror_name`. The constants of errno.h are a parameter: the value of the one
-- with a given name, if the system defines it.
use mathlib.Core.Option.{none-ne-some, some-injective}
use hlibc.Base.{
  ℕ, ◌≡◌, sym, ap, ◌∙◌, Bool, true, false, List, [], ◌∷◌, ◌++◌, Option, none, some, ℤ, pos, negsuc,
  ◌==◌, if◌then◌else◌, ◌⊎◌, inl, inr, Bool-cases, Option-cases, arith,
}

abbrev pub first_names : List (List ℕ)
first_names =
    (b'E' ∷ b'2' ∷ b'B' ∷ b'I' ∷ b'G' ∷ [])
    ∷ (b'E' ∷ b'A' ∷ b'C' ∷ b'C' ∷ b'E' ∷ b'S' ∷ [])
    ∷ (b'E' ∷ b'A' ∷ b'D' ∷ b'D' ∷ b'R' ∷ b'I' ∷ b'N' ∷ b'U' ∷ b'S' ∷ b'E' ∷ [])
    ∷ (b'E' ∷ b'A' ∷ b'D' ∷ b'D' ∷ b'R' ∷ b'N' ∷ b'O' ∷ b'T' ∷ b'A' ∷ b'V' ∷ b'A' ∷ b'I' ∷ b'L'
        ∷ [])
    ∷ (b'E' ∷ b'A' ∷ b'F' ∷ b'N' ∷ b'O' ∷ b'S' ∷ b'U' ∷ b'P' ∷ b'P' ∷ b'O' ∷ b'R' ∷ b'T' ∷ [])
    ∷ (b'E' ∷ b'A' ∷ b'G' ∷ b'A' ∷ b'I' ∷ b'N' ∷ [])
    ∷ (b'E' ∷ b'A' ∷ b'L' ∷ b'R' ∷ b'E' ∷ b'A' ∷ b'D' ∷ b'Y' ∷ [])
    ∷ (b'E' ∷ b'B' ∷ b'A' ∷ b'D' ∷ b'F' ∷ [])
    ∷ (b'E' ∷ b'B' ∷ b'A' ∷ b'D' ∷ b'M' ∷ b'S' ∷ b'G' ∷ [])
    ∷ (b'E' ∷ b'B' ∷ b'U' ∷ b'S' ∷ b'Y' ∷ [])
    ∷ (b'E' ∷ b'C' ∷ b'A' ∷ b'N' ∷ b'C' ∷ b'E' ∷ b'L' ∷ b'E' ∷ b'D' ∷ [])
    ∷ (b'E' ∷ b'C' ∷ b'H' ∷ b'I' ∷ b'L' ∷ b'D' ∷ [])
    ∷ (b'E' ∷ b'C' ∷ b'O' ∷ b'N' ∷ b'N' ∷ b'A' ∷ b'B' ∷ b'O' ∷ b'R' ∷ b'T' ∷ b'E' ∷ b'D' ∷ [])
    ∷ (b'E' ∷ b'C' ∷ b'O' ∷ b'N' ∷ b'N' ∷ b'R' ∷ b'E' ∷ b'F' ∷ b'U' ∷ b'S' ∷ b'E' ∷ b'D' ∷ [])
    ∷ (b'E' ∷ b'C' ∷ b'O' ∷ b'N' ∷ b'N' ∷ b'R' ∷ b'E' ∷ b'S' ∷ b'E' ∷ b'T' ∷ [])
    ∷ (b'E' ∷ b'D' ∷ b'E' ∷ b'A' ∷ b'D' ∷ b'L' ∷ b'K' ∷ [])
    ∷ (b'E' ∷ b'D' ∷ b'E' ∷ b'S' ∷ b'T' ∷ b'A' ∷ b'D' ∷ b'D' ∷ b'R' ∷ b'R' ∷ b'E' ∷ b'Q' ∷ [])
    ∷ (b'E' ∷ b'D' ∷ b'O' ∷ b'M' ∷ [])
    ∷ (b'E' ∷ b'D' ∷ b'Q' ∷ b'U' ∷ b'O' ∷ b'T' ∷ [])
    ∷ (b'E' ∷ b'E' ∷ b'X' ∷ b'I' ∷ b'S' ∷ b'T' ∷ [])
    ∷ (b'E' ∷ b'F' ∷ b'A' ∷ b'U' ∷ b'L' ∷ b'T' ∷ [])
    ∷ (b'E' ∷ b'F' ∷ b'B' ∷ b'I' ∷ b'G' ∷ [])
    ∷ (b'E' ∷ b'H' ∷ b'O' ∷ b'S' ∷ b'T' ∷ b'U' ∷ b'N' ∷ b'R' ∷ b'E' ∷ b'A' ∷ b'C' ∷ b'H' ∷ [])
    ∷ (b'E' ∷ b'I' ∷ b'D' ∷ b'R' ∷ b'M' ∷ [])
    ∷ (b'E' ∷ b'I' ∷ b'L' ∷ b'S' ∷ b'E' ∷ b'Q' ∷ [])
    ∷ (b'E' ∷ b'I' ∷ b'N' ∷ b'P' ∷ b'R' ∷ b'O' ∷ b'G' ∷ b'R' ∷ b'E' ∷ b'S' ∷ b'S' ∷ [])
    ∷ (b'E' ∷ b'I' ∷ b'N' ∷ b'T' ∷ b'R' ∷ [])
    ∷ (b'E' ∷ b'I' ∷ b'N' ∷ b'V' ∷ b'A' ∷ b'L' ∷ [])
    ∷ (b'E' ∷ b'I' ∷ b'O' ∷ [])
    ∷ (b'E' ∷ b'I' ∷ b'S' ∷ b'C' ∷ b'O' ∷ b'N' ∷ b'N' ∷ [])
    ∷ (b'E' ∷ b'I' ∷ b'S' ∷ b'D' ∷ b'I' ∷ b'R' ∷ [])
    ∷ (b'E' ∷ b'L' ∷ b'O' ∷ b'O' ∷ b'P' ∷ [])
    ∷ (b'E' ∷ b'M' ∷ b'F' ∷ b'I' ∷ b'L' ∷ b'E' ∷ [])
    ∷ (b'E' ∷ b'M' ∷ b'L' ∷ b'I' ∷ b'N' ∷ b'K' ∷ [])
    ∷ (b'E' ∷ b'M' ∷ b'S' ∷ b'G' ∷ b'S' ∷ b'I' ∷ b'Z' ∷ b'E' ∷ [])
    ∷ (b'E' ∷ b'M' ∷ b'U' ∷ b'L' ∷ b'T' ∷ b'I' ∷ b'H' ∷ b'O' ∷ b'P' ∷ [])
    ∷ (b'E' ∷ b'N' ∷ b'A' ∷ b'M' ∷ b'E' ∷ b'T' ∷ b'O' ∷ b'O' ∷ b'L' ∷ b'O' ∷ b'N' ∷ b'G' ∷ [])
    ∷ (b'E' ∷ b'N' ∷ b'E' ∷ b'T' ∷ b'D' ∷ b'O' ∷ b'W' ∷ b'N' ∷ [])
    ∷ (b'E' ∷ b'N' ∷ b'E' ∷ b'T' ∷ b'R' ∷ b'E' ∷ b'S' ∷ b'E' ∷ b'T' ∷ [])
    ∷ (b'E' ∷ b'N' ∷ b'E' ∷ b'T' ∷ b'U' ∷ b'N' ∷ b'R' ∷ b'E' ∷ b'A' ∷ b'C' ∷ b'H' ∷ [])
    ∷ []

abbrev pub last_names : List (List ℕ)
last_names =
    (b'E' ∷ b'N' ∷ b'F' ∷ b'I' ∷ b'L' ∷ b'E' ∷ [])
    ∷ (b'E' ∷ b'N' ∷ b'O' ∷ b'B' ∷ b'U' ∷ b'F' ∷ b'S' ∷ [])
    ∷ (b'E' ∷ b'N' ∷ b'O' ∷ b'D' ∷ b'A' ∷ b'T' ∷ b'A' ∷ [])
    ∷ (b'E' ∷ b'N' ∷ b'O' ∷ b'D' ∷ b'E' ∷ b'V' ∷ [])
    ∷ (b'E' ∷ b'N' ∷ b'O' ∷ b'E' ∷ b'N' ∷ b'T' ∷ [])
    ∷ (b'E' ∷ b'N' ∷ b'O' ∷ b'E' ∷ b'X' ∷ b'E' ∷ b'C' ∷ [])
    ∷ (b'E' ∷ b'N' ∷ b'O' ∷ b'L' ∷ b'C' ∷ b'K' ∷ [])
    ∷ (b'E' ∷ b'N' ∷ b'O' ∷ b'L' ∷ b'I' ∷ b'N' ∷ b'K' ∷ [])
    ∷ (b'E' ∷ b'N' ∷ b'O' ∷ b'M' ∷ b'E' ∷ b'M' ∷ [])
    ∷ (b'E' ∷ b'N' ∷ b'O' ∷ b'M' ∷ b'S' ∷ b'G' ∷ [])
    ∷ (b'E' ∷ b'N' ∷ b'O' ∷ b'P' ∷ b'R' ∷ b'O' ∷ b'T' ∷ b'O' ∷ b'O' ∷ b'P' ∷ b'T' ∷ [])
    ∷ (b'E' ∷ b'N' ∷ b'O' ∷ b'S' ∷ b'P' ∷ b'C' ∷ [])
    ∷ (b'E' ∷ b'N' ∷ b'O' ∷ b'S' ∷ b'R' ∷ [])
    ∷ (b'E' ∷ b'N' ∷ b'O' ∷ b'S' ∷ b'T' ∷ b'R' ∷ [])
    ∷ (b'E' ∷ b'N' ∷ b'O' ∷ b'S' ∷ b'Y' ∷ b'S' ∷ [])
    ∷ (b'E' ∷ b'N' ∷ b'O' ∷ b'T' ∷ b'C' ∷ b'O' ∷ b'N' ∷ b'N' ∷ [])
    ∷ (b'E' ∷ b'N' ∷ b'O' ∷ b'T' ∷ b'D' ∷ b'I' ∷ b'R' ∷ [])
    ∷ (b'E' ∷ b'N' ∷ b'O' ∷ b'T' ∷ b'E' ∷ b'M' ∷ b'P' ∷ b'T' ∷ b'Y' ∷ [])
    ∷ (b'E' ∷ b'N' ∷ b'O' ∷ b'T' ∷ b'R' ∷ b'E' ∷ b'C' ∷ b'O' ∷ b'V' ∷ b'E' ∷ b'R' ∷ b'A' ∷ b'B'
        ∷ b'L' ∷ b'E' ∷ [])
    ∷ (b'E' ∷ b'N' ∷ b'O' ∷ b'T' ∷ b'S' ∷ b'O' ∷ b'C' ∷ b'K' ∷ [])
    ∷ (b'E' ∷ b'N' ∷ b'O' ∷ b'T' ∷ b'S' ∷ b'U' ∷ b'P' ∷ [])
    ∷ (b'E' ∷ b'N' ∷ b'O' ∷ b'T' ∷ b'T' ∷ b'Y' ∷ [])
    ∷ (b'E' ∷ b'N' ∷ b'X' ∷ b'I' ∷ b'O' ∷ [])
    ∷ (b'E' ∷ b'O' ∷ b'P' ∷ b'N' ∷ b'O' ∷ b'T' ∷ b'S' ∷ b'U' ∷ b'P' ∷ b'P' ∷ [])
    ∷ (b'E' ∷ b'O' ∷ b'V' ∷ b'E' ∷ b'R' ∷ b'F' ∷ b'L' ∷ b'O' ∷ b'W' ∷ [])
    ∷ (b'E' ∷ b'O' ∷ b'W' ∷ b'N' ∷ b'E' ∷ b'R' ∷ b'D' ∷ b'E' ∷ b'A' ∷ b'D' ∷ [])
    ∷ (b'E' ∷ b'P' ∷ b'E' ∷ b'R' ∷ b'M' ∷ [])
    ∷ (b'E' ∷ b'P' ∷ b'I' ∷ b'P' ∷ b'E' ∷ [])
    ∷ (b'E' ∷ b'P' ∷ b'R' ∷ b'O' ∷ b'T' ∷ b'O' ∷ [])
    ∷ (b'E' ∷ b'P' ∷ b'R' ∷ b'O' ∷ b'T' ∷ b'O' ∷ b'N' ∷ b'O' ∷ b'S' ∷ b'U' ∷ b'P' ∷ b'P' ∷ b'O'
        ∷ b'R' ∷ b'T' ∷ [])
    ∷ (b'E' ∷ b'P' ∷ b'R' ∷ b'O' ∷ b'T' ∷ b'O' ∷ b'T' ∷ b'Y' ∷ b'P' ∷ b'E' ∷ [])
    ∷ (b'E' ∷ b'R' ∷ b'A' ∷ b'N' ∷ b'G' ∷ b'E' ∷ [])
    ∷ (b'E' ∷ b'R' ∷ b'O' ∷ b'F' ∷ b'S' ∷ [])
    ∷ (b'E' ∷ b'S' ∷ b'P' ∷ b'I' ∷ b'P' ∷ b'E' ∷ [])
    ∷ (b'E' ∷ b'S' ∷ b'R' ∷ b'C' ∷ b'H' ∷ [])
    ∷ (b'E' ∷ b'S' ∷ b'T' ∷ b'A' ∷ b'L' ∷ b'E' ∷ [])
    ∷ (b'E' ∷ b'T' ∷ b'I' ∷ b'M' ∷ b'E' ∷ [])
    ∷ (b'E' ∷ b'T' ∷ b'I' ∷ b'M' ∷ b'E' ∷ b'D' ∷ b'O' ∷ b'U' ∷ b'T' ∷ [])
    ∷ (b'E' ∷ b'T' ∷ b'X' ∷ b'T' ∷ b'B' ∷ b'S' ∷ b'Y' ∷ [])
    ∷ (b'E' ∷ b'W' ∷ b'O' ∷ b'U' ∷ b'L' ∷ b'D' ∷ b'B' ∷ b'L' ∷ b'O' ∷ b'C' ∷ b'K' ∷ [])
    ∷ (b'E' ∷ b'X' ∷ b'D' ∷ b'E' ∷ b'V' ∷ [])
    ∷ []

-- Whether a constant is defined and has the value.
abbrev matches : ℕ → Option ℕ → Bool
matches code none = false
matches code (some v) = v == code

same_value : (v code : ℕ) → (v == code) ≡ true → v ≡ code
same_value v code h = ground (arith, h)

false-not-true : false ≡ true → ⊥
false-not-true h = ground (arith, h)

module _ (value : List ℕ → Option ℕ) where
  abbrev has_value : List ℕ → ℕ → Bool
  has_value name code = matches code (value name)

  -- The entry of the table at `code`: that of the last constant with this value, or else the null pointer.
  unfoldable pub entry_at : List (List ℕ) → ℕ → Option (List ℕ) → Option (List ℕ)
  entry_at [] code found = found
  entry_at (name ∷ names) code found =
      entry_at names code (if has_value name code then some name else found)

  unfoldable pub strerror_name : ℤ → Option (List ℕ)
  strerror_name (negsuc n) = none
  strerror_name (pos code) = entry_at (first_names ++ last_names) code none

  has_value_lem : (name : List ℕ) (code : ℕ) → has_value name code ≡ true → value name ≡ some code
  has_value_lem name code h = elim (Option-cases (value name)) [
    | inl q ↦ absurd (false-not-true (sym (ap (matches code) q) ∙ h))
    | inr (v, q) ↦ q ∙ ap some (same_value v code (sym (ap (matches code) q) ∙ h))
  ]

  entry_at_lem :
      (names : List (List ℕ)) (code : ℕ) (found : Option (List ℕ)) (name : List ℕ)
      → entry_at names code found ≡ some name
      → (found ≡ some name) ⊎ (value name ≡ some code)
  unfolding entry_at
  entry_at_lem [] code found name h = inl h
  entry_at_lem (n ∷ names) code found name h = elim (Bool-cases (has_value n code)) [
    | inr f ↦ elim (entry_at_lem names code (if has_value n code then some n else found) name h) [
      | inl e ↦ inl (sym (ap (λ b. if b then some n else found) f) ∙ e)
      | inr e ↦ inr e
    ]
    | inl t ↦ elim (entry_at_lem names code (if has_value n code then some n else found) name h) [
      | inl e ↦
          (let same : n ≡ name =
              some-injective n name (sym (ap (λ b. if b then some n else found) t) ∙ e) in
            inr (ap value (sym same) ∙ has_value_lem n code t))
      | inr e ↦ inr e
    ]
  ]

  -- The name that `strerror_name` finds is that of a constant with the value asked for.
  pub strerror_name_lem :
      (code : ℕ) (name : List ℕ) → strerror_name (pos code) ≡ some name → value name ≡ some code
  unfolding strerror_name
  strerror_name_lem code name h = elim (entry_at_lem (first_names ++ last_names) code none name h) [
    | inl e ↦ absurd (none-ne-some name e)
    | inr e ↦ e
  ]
