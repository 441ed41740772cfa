-- ===== src/Api/Categories/Found.antt =====
-- That a category that crates/api/src/categories/routes.rs has made is found from then on.
use thewiki.Prelude.{◌≡◌, refl, ap, sym, ◌∙◌, some, none, List, [], ◌∷◌, inl, inr}
use thewiki.Prelude.Result.{ok, ok-injective}
use thewiki.Prelude.Tests.{Bool-cases}
use thewiki.Prelude.Text.{Text, text_eq, text_eq_iff, text_eq_refl}
use thewiki.Storage.Categories.{Category, row_by_slug, get_by_slug}
use thewiki.Storage.Categories.Forest.{create-row}
use thewiki.Api.Categories.{
  CategoryView, category_view, create_category, get_category, Call, serve, serve_all,
}
use thewiki.Api.Categories.WellFormed.{create_category-cases}
use native.Mathlib.Omega.{arith}

row_by_slug-cons :
    (row found : Category) (rows : List Category) (slug : Text)
    → row_by_slug rows row.slug ≡ none
    → row_by_slug rows slug ≡ some found
    → row_by_slug (row ∷ rows) slug ≡ some found
unfolding row_by_slug
row_by_slug-cons row found rows slug free h = elim (Bool-cases (text_eq row.slug slug)) [
  | inr e ↦ ground (arith, e, h)
  | inl e ↦
      let same = (text_eq_iff row.slug slug).0 e in
      ground (arith, ap (row_by_slug rows) same, free, h)
]

-- No later call takes a slug away or gives it to another category.
serve_all-row_by_slug :
    (calls : List Call) (rows : List Category) (slug : Text) (found : Category)
    → row_by_slug rows slug ≡ some found
    → row_by_slug (serve_all calls rows) slug ≡ some found
serve_all-row_by_slug [] rows slug found h = h
serve_all-row_by_slug (call ∷ calls) rows slug found h =
    serve_all-row_by_slug calls (serve call rows) slug found
      (elim (create_category-cases call rows) [
        | inl (_, e) ↦ ap (λ z. row_by_slug z.1 slug) e ∙ h
        | inr (row, (_, created), e) ↦
            ap (λ z. row_by_slug z.1 slug) e
            ∙ row_by_slug-cons row found rows slug (create-row row rows (row ∷ rows) created).0 h
      ])

row_by_slug-here :
    (row : Category) (rows : List Category) → row_by_slug (row ∷ rows) row.slug ≡ some row
unfolding row_by_slug
row_by_slug-here row rows = ground (arith, text_eq_refl row.slug)

get_category-found :
    (slug : Text) (row : Category) (rows : List Category)
    → row_by_slug rows slug ≡ some row
    → get_category slug rows ≡ ok (category_view row)
unfolding get_category get_by_slug
get_category-found slug row rows h = rw (get_category, get_by_slug, h) refl

-- A category that the creating handler answers is answered again, the same, under the slug it was
-- answered with, after whatever other categories are asked for in between.
pub create_category-get_category :
    (call : Call) (view : CategoryView) (later : List Call) (rows : List Category)
    → (create_category call.editor call.fresh_id call.now call.req rows).0 ≡ ok view
    → get_category view.slug (serve_all later (serve call rows)) ≡ ok view
create_category-get_category call view later rows h = elim (create_category-cases call rows) [
  | inl (e, p) ↦ ground (arith, ap (λ z. z.0) p, h)
  | inr (row, _, p) ↦
      let same = ok-injective (category_view row) view (sym (ap (λ z. z.0) p) ∙ h) in
      let after = serve_all later (row ∷ rows) in
      ap (λ z. get_category view.slug (serve_all later z.1)) p
      ∙ ap (λ v. get_category v.slug after) (sym same)
      ∙ get_category-found row.slug row after
          (serve_all-row_by_slug later (row ∷ rows) row.slug row (row_by_slug-here row rows))
      ∙ ap ok same
]
