-- ===== src/Api/Categories/WellFormed.antt =====
-- What every table of categories that crates/api/src/categories/routes.rs makes has.
use thewiki.Prelude.{
  ◌≡◌, ap, sym, subst, ◌∙◌, ℕ, none, Bool, true, false, not, List, [], ◌∷◌, ◌⊎◌, inl, inr,
}
use thewiki.Prelude.Lists.{any, All}
use thewiki.Prelude.Result.{
  ok, err, and_then, map_err, Result-cases, and_then-ok, unless-ok, map_err-ok, ok-injective,
}
use thewiki.Prelude.Text.{Text, text_eq, trim}
use thewiki.Storage.Categories.{Category, row_by_slug, create}
use thewiki.Storage.Categories.Forest.{IsForest, create-IsForest, create-row}
use thewiki.Api.Exec.{ApiError, from_storage}
use thewiki.Api.Categories.{
  is_slug_char, check_slug, check_display_name, requested, stored, answer, create_category,
  category_view, CreateCategoryRequest, Call, serve, serve_all,
}
use native.Mathlib.Omega.{arith}

-- The row has an address and a name.
pub record IsPresentable (row : Category) : Type 0 where
  pub slug_there : text_eq row.slug [] ≡ false
  pub slug_chars : All (λ c. is_slug_char c ≡ true) row.slug
  pub name_there : text_eq row.display_name [] ≡ false

-- No two rows have one slug.
abbrev pub OwnSlugs : List Category → Type 0
OwnSlugs [] = Unit
OwnSlugs (row ∷ rows) = (row_by_slug rows row.slug ≡ none) × OwnSlugs rows

pub record WellFormed (rows : List Category) : Type 0 where
  pub forest : IsForest rows
  pub own_slugs : OwnSlugs rows
  pub presentable : All IsPresentable rows

any-All : (p : ℕ → Bool) (s : Text) → any (λ c. not (p c)) s ≡ false → All (λ c. p c ≡ true) s
any-All p [] h = tt
any-All p (c ∷ s) h = (ground (arith, h), any-All p s (ground (arith, h)))

requested-IsPresentable :
    (fresh_id now : ℕ) (req : CreateCategoryRequest) (row : Category)
    → requested fresh_id now req ≡ ok row
    → IsPresentable row
requested-IsPresentable fresh_id now req row h =
    let slug = trim req.slug in
    let (_, s, h1) = and_then-ok (check_slug slug) _ row h in
    let (_, n, h2) = and_then-ok (check_display_name req.display_name) _ row h1 in
    let (there, s1) = unless-ok (text_eq slug []) _ _ tt s in
    let (chars, _) = unless-ok (any (λ c. not (is_slug_char c)) slug) _ _ tt s1 in
    let (named, _) = unless-ok (text_eq (trim req.display_name) []) _ _ tt n in
    subst IsPresentable (ok-injective _ row h2) (record {
      slug_there = there;
      slug_chars = any-All is_slug_char slug chars;
      name_there = named;
    })

-- A row that the handler has made of a request and the table accepts.
abbrev pub Creates : Call → Category → List Category → Type 0
Creates call row rows =
    (requested call.fresh_id call.now call.req ≡ ok row) × (create row rows ≡ ok (row ∷ rows))

stored-ok :
    (row : Category) (rows : List Category) (made : Category × List Category)
    → stored row rows ≡ ok made
    → (made ≡ (row, row ∷ rows)) × (create row rows ≡ ok (row ∷ rows))
stored-ok row rows made h =
    let (after, e, h') = and_then-ok (map_err from_storage (create row rows)) _ made h in
    let inserted = map_err-ok from_storage (create row rows) after e in
    let (_, same) = create-row row rows after inserted in
    (sym (ok-injective (row, after) made h') ∙ ap (λ z. (row, z)) same, inserted ∙ ap ok same)

-- A call either changes nothing and is refused or puts the row that it answers in front.
pub create_category-cases :
    (call : Call) (rows : List Category)
    → ((e : ApiError) × (create_category call.editor call.fresh_id call.now call.req rows
          ≡ (err e, rows)))
      ⊎ ((row : Category) × Creates call row rows
          × (create_category call.editor call.fresh_id call.now call.req rows
              ≡ (ok (category_view row), row ∷ rows)))
unfolding create_category
create_category-cases call rows =
    let asked = requested call.fresh_id call.now call.req in
    let made = and_then asked (λ row. stored row rows) in
    elim (Result-cases made) [
      | inr (e, h) ↦ inl (e, ap (answer rows) h)
      | inl (out, h) ↦
          let (row, r, s) = and_then-ok asked (λ row. stored row rows) out h in
          let (same, inserted) = stored-ok row rows out s in
          inr (row, (r, inserted), ap (answer rows) (h ∙ ap ok same))
    ]

WellFormed-cons :
    (call : Call) (row : Category) (rows : List Category)
    → Creates call row rows
    → WellFormed rows
    → WellFormed (row ∷ rows)
WellFormed-cons call row rows (asked, created) w = record {
  forest = create-IsForest row rows (row ∷ rows) created w.forest;
  own_slugs = ((create-row row rows (row ∷ rows) created).0, w.own_slugs);
  presentable = (requested-IsPresentable call.fresh_id call.now call.req row asked, w.presentable);
}

WellFormed-serve :
    (call : Call) (rows : List Category) → WellFormed rows → WellFormed (serve call rows)
WellFormed-serve call rows w = elim (create_category-cases call rows) [
  | inl (_, e) ↦ subst WellFormed (sym (ap (λ z. z.1) e)) w
  | inr (row, creates, e) ↦
      subst WellFormed (sym (ap (λ z. z.1) e)) (WellFormed-cons call row rows creates w)
]

-- Whatever categories are asked for, by whomever and in whatever order, the table stays well-formed, the
-- refused requests included: the parents form a forest, no two categories have one slug, and each has a
-- slug of ASCII letters, digits, dashes and underscores and a display name, neither of them empty.
pub serve_all-WellFormed :
    (calls : List Call) (rows : List Category) → WellFormed rows → WellFormed (serve_all calls rows)
serve_all-WellFormed [] rows w = w
serve_all-WellFormed (call ∷ calls) rows w =
    serve_all-WellFormed calls (serve call rows) (WellFormed-serve call rows w)
