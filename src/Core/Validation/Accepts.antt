-- ===== src/Core/Validation/Accepts.antt =====
-- What `validate` lets through, and which error it gives otherwise.
use thewiki.Prelude.{
  ◌≡◌, inl, inr, refl, ap, ◌↔◌, ◌≢◌, ℕ, ◌≤◌, Bool, true, false, not, [], ◌∷◌, ◌++◌, some, none,
  arith,
}
use thewiki.Prelude.Lists.{find, All}
use thewiki.Prelude.Result.{ok, err}
use thewiki.Prelude.Tests.{Bool-cases}
use thewiki.Prelude.Text.{Text, text_eq_iff, len}
use thewiki.Core.Validation.{invalid_character, validate}

abbrev pub Allowed : (ℕ → Bool) → Text → Type 0
Allowed allowed s = All (λ c. allowed c ≡ true) s

find-none : (p : ℕ → Bool) (s : Text) → find (λ c. not (p c)) s ≡ none → Allowed p s
find-none p [] h = tt
find-none p (c ∷ s) h = ground (arith, find-none p s)

Allowed-find : (p : ℕ → Bool) (s : Text) → Allowed p s → find (λ c. not (p c)) s ≡ none
Allowed-find p [] h = refl
Allowed-find p (c ∷ s) h = ground (arith, Allowed-find p s)

-- `find` gives the first element that passes.
find-first :
    (p : ℕ → Bool) (s : Text) (bad : ℕ)
    → find (λ c. not (p c)) s ≡ some bad
    → (before : Text) × (after : Text) × (s ≡ before ++ bad ∷ after)
      × Allowed p before
      × (p bad ≡ false)
find-first p [] bad h = cc
find-first p (c ∷ s) bad h = elim (Bool-cases (p c)) [
  | inl e ↦
      let (before, after, q, fine, wrong) = find-first p s bad (ground (arith, e, h)) in
      (c ∷ before, after, ap (λ t. c ∷ t) q, (e, fine), wrong)
  | inr e ↦ ([], s, ap (λ d. d ∷ s) (ground (arith, e, h)), tt, ground (arith, e, h))
]

module _ (max_bytes : ℕ) (allowed : ℕ → Bool) (value stored : Text) where
  pub validate-accepts :
      (t : Text)
      → (validate max_bytes allowed value stored ≡ ok t)
        ↔ ((value ≢ []) × (len value ≤ max_bytes) × Allowed allowed stored × (t ≡ stored))
  unfolding validate
  validate-accepts t = (
    λ h. ground (arith, text_eq_iff value [], find-none allowed stored),
    λ h. ground (arith, text_eq_iff value [], Allowed-find allowed stored),
  )

  validate-rejects :
      (bad : ℕ)
      → validate max_bytes allowed value stored ≡ err (invalid_character bad)
      → (before : Text) × (after : Text) × (stored ≡ before ++ bad ∷ after)
        × Allowed allowed before
        × (allowed bad ≡ false)
  unfolding validate
  validate-rejects bad h = find-first allowed stored bad (ground (arith))
