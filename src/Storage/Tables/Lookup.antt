-- ===== src/Storage/Tables/Lookup.antt =====
-- Rows looked up by a key, after an insertion, an update and a deletion.
use thewiki.Prelude.{
  inl, inr, ap, ◌∙◌, ◌≡◌, false, none, refl, ℕ, Bool, true, List, [], ◌∷◌, Option, some, none,
  arith, map,
}
use mathlib.Core.Option.{map as map_option, some-injective}
use thewiki.Prelude.Lists.{find}
use thewiki.Prelude.Tests.{Bool-cases, ==_refl, ◌==◌, ==_iff, if◌then◌else◌}
use thewiki.Storage.Tables.{filter, update_where}

module _ {A : Type 0} (key : A → ℕ) where
  abbrev pub by_key : List A → ℕ → Option A
  by_key rows id = find (λ x. key x == id) rows

  -- No two rows have the same key.
  abbrev pub Distinct : List A → Type 0
  Distinct [] = Unit
  Distinct (x ∷ xs) = (by_key xs (key x) ≡ none) × Distinct xs

  pub by_key-key : (rows : List A) (id : ℕ) (x : A) → by_key rows id ≡ some x → key x ≡ id
  by_key-key [] id x h = cc
  by_key-key (y ∷ ys) id x h = ground (arith, by_key-key ys id x)

  pub by_key-here :
      (x : A) (xs : List A) (id : ℕ) → (key x == id) ≡ true → by_key (x ∷ xs) id ≡ some x
  by_key-here x xs id e = ground arith

  pub by_key-there :
      (x : A) (xs : List A) (id : ℕ) → (key x == id) ≡ false → by_key (x ∷ xs) id ≡ by_key xs id
  by_key-there x xs id e = ground arith

  -- A new row takes no other row's place.
  pub by_key-fresh :
      (x : A) (xs : List A) (id : ℕ) (y : A)
      → by_key xs (key x) ≡ none
      → by_key xs id ≡ some y
      → by_key (x ∷ xs) id ≡ some y
  by_key-fresh x xs id y fresh h = ground (arith, ==_iff (key x) id)

  -- A row that any search finds is the row with its key.
  pub by_key-found :
      (p : A → Bool) (rows : List A) (x : A)
      → Distinct rows
      → find p rows ≡ some x
      → by_key rows (key x) ≡ some x
  by_key-found p [] x d h = cc
  by_key-found p (y ∷ ys) x d h = elim (Bool-cases (p y)) [
    | inl e ↦ ground (arith, ==_refl (key y))
    | inr e ↦ by_key-fresh y ys (key x) x d.0 (by_key-found p ys x d.1 (ground (arith)))
  ]

  pub by_key-update :
      (f : A → A) (k : ℕ)
      → ((x : A) → key (f x) ≡ key x)
      → (rows : List A) (id : ℕ)
      → by_key (update_where (λ x. key x == k) f rows) id
        ≡ (if id == k then map_option f (by_key rows id) else by_key rows id)
  by_key-update f k keeps [] id = ground arith
  by_key-update f k keeps (x ∷ xs) id =
      ground (arith, by_key-update f k keeps xs id, keeps x, ==_iff (key x) k, ==_iff (key x) id)

  pub by_key-map :
      (f : A → A)
      → ((x : A) → key (f x) ≡ key x)
      → (rows : List A) (id : ℕ) → by_key (map f rows) id ≡ map_option f (by_key rows id)
  by_key-map f keeps [] id = refl
  by_key-map f keeps (x ∷ xs) id = ground (arith, by_key-map f keeps xs id, keeps x)

  pub by_key-filter :
      (p : A → Bool) (rows : List A) (id : ℕ) (x : A)
      → Distinct rows
      → by_key (filter p rows) id ≡ some x
      → (by_key rows id ≡ some x) × (p x ≡ true)
  by_key-filter p [] id x d h = cc
  by_key-filter p (y ∷ ys) id x d h =
      ground (arith, by_key-filter p ys id x d.1, d.0, by_key-key ys id x)

  pub by_key-filter-none :
      (p : A → Bool) (rows : List A) (id : ℕ)
      → by_key rows id ≡ none
      → by_key (filter p rows) id ≡ none
  by_key-filter-none p [] id h = refl
  by_key-filter-none p (y ∷ ys) id h = ground (arith, by_key-filter-none p ys id)

  pub by_key-filter-some :
      (p : A → Bool) (rows : List A) (id : ℕ) (x : A)
      → by_key rows id ≡ some x
      → p x ≡ true
      → by_key (filter p rows) id ≡ some x
  by_key-filter-some p [] id x h q = cc
  by_key-filter-some p (y ∷ ys) id x h q = ground (arith, by_key-filter-some p ys id x)

  pub Distinct-filter : (p : A → Bool) (rows : List A) → Distinct rows → Distinct (filter p rows)
  Distinct-filter p [] d = tt
  Distinct-filter p (x ∷ xs) d =
      ground (arith, Distinct-filter p xs d.1, by_key-filter-none p xs (key x) d.0)

  pub Distinct-map :
      (f : A → A)
      → ((x : A) → key (f x) ≡ key x)
      → (rows : List A) → Distinct rows
      → Distinct (map f rows)
  Distinct-map f keeps [] d = tt
  Distinct-map f keeps (x ∷ xs) d = (
    by_key-map f keeps xs (key (f x)) ∙ ap (map_option f) (ap (by_key xs) (keeps x) ∙ d.0),
    Distinct-map f keeps xs d.1,
  )

  pub Distinct-update :
      (f : A → A) (k : ℕ)
      → ((x : A) → key (f x) ≡ key x)
      → (rows : List A) → Distinct rows
      → Distinct (update_where (λ x. key x == k) f rows)
  Distinct-update f k keeps [] d = tt
  Distinct-update f k keeps (x ∷ xs) d = ground (
    arith,
    by_key-update f k keeps xs (key (if key x == k then f x else x)),
    keeps x,
    d.0,
    Distinct-update f k keeps xs d.1,
  )

pub map_option-some :
    {A B : Type 0} (f : A → B) (o : Option A) (y : B)
    → map_option f o ≡ some y
    → (x : A) × (o ≡ some x) × (f x ≡ y)
map_option-some f none y h = cc
map_option-some f (some x) y h = (x, refl, some-injective _ _ h)
