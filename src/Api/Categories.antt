-- ===== src/Api/Categories.antt =====
-- The handlers of crates/api/src/categories/routes.rs on categories. Who may call is the extractor's
-- decision, whose result is the argument `editor`; the id and the time are the system's.
pub mod Found
pub mod WellFormed
pub mod Tests
use thewiki.Prelude.{ℕ, Option, none, some, Bool, not, ◌||◌, List, [], ◌∷◌, map}
use thewiki.Prelude.Lists.{any}
use thewiki.Prelude.Result.{Result, ok, err, and_then, map_err}
use thewiki.Prelude.Tests.{◌==◌, if◌then◌else◌}
use thewiki.Prelude.Text.{Text, codes, text_eq, trim}
use thewiki.Core.Validation.{is_ascii_alphanumeric}
use thewiki.Storage.Categories.{Category, create, get_by_slug, list_all}
use thewiki.Api.Exec.{ApiError, invalid_input, from_storage}
use thewiki.Api.Editor.{Editor}

pub record CategoryView : Type 0 where
  pub id : ℕ
  pub slug : Text
  pub display_name : Text
  pub parent_id : Option ℕ
  pub created_at : ℕ

pub record CreateCategoryRequest : Type 0 where
  pub slug : Text
  pub display_name : Text
  pub parent_id : Option ℕ

abbrev pub category_view : Category → CategoryView
category_view c = record {
  id = c.id;
  slug = c.slug;
  display_name = c.display_name;
  parent_id = c.parent_id;
  created_at = c.created_at;
}

unfoldable pub list_categories : List Category → List CategoryView
list_categories rows = map category_view (list_all rows)

-- What a slug may be written with.
abbrev pub is_slug_char : ℕ → Bool
is_slug_char c = is_ascii_alphanumeric c || c == b'-' || c == b'_'

abbrev pub check_slug : Text → Result ApiError (Unit {0})
check_slug slug =
    if text_eq slug []
    then err (invalid_input (codes "slug must not be empty"))
    else if any (λ c. not (is_slug_char c)) slug
    then err (invalid_input (codes "slug must be ASCII alphanumeric, '-' or '_'"))
    else ok tt

abbrev pub check_display_name : Text → Result ApiError (Unit {0})
check_display_name display_name =
    if text_eq (trim display_name) []
    then err (invalid_input (codes "display_name must not be empty"))
    else ok tt

abbrev pub requested : ℕ → ℕ → CreateCategoryRequest → Result ApiError Category
requested fresh_id now req = and_then (check_slug (trim req.slug)) (λ _.
    and_then (check_display_name req.display_name) (λ _. ok (record {
      id = fresh_id;
      slug = trim req.slug;
      display_name = trim req.display_name;
      parent_id = req.parent_id;
      created_at = now;
    })))

-- The row to answer and the table with it.
abbrev pub stored : Category → List Category → Result ApiError (Category × List Category)
stored category rows =
    and_then (map_err from_storage (create category rows)) (λ after. ok (category, after))

abbrev pub answer :
    List Category
    → Result ApiError (Category × List Category)
    → Result ApiError CategoryView × List Category
answer rows (err e) = (err e, rows)
answer rows (ok (category, after)) = (ok (category_view category), after)

unfoldable pub create_category :
    Editor
    → ℕ
    → ℕ
    → CreateCategoryRequest
    → List Category
    → Result ApiError CategoryView × List Category
create_category editor fresh_id now req rows =
    answer rows (and_then (requested fresh_id now req) (λ category. stored category rows))

-- The category of `GET /api/v1/categories/{slug}`.
unfoldable pub get_category : Text → List Category → Result ApiError CategoryView
get_category slug rows =
    and_then (map_err from_storage (get_by_slug slug rows)) (λ c. ok (category_view c))

-- A call of the creating handler, and a run of them.
pub record Call : Type 0 where
  pub editor : Editor
  pub fresh_id : ℕ
  pub now : ℕ
  pub req : CreateCategoryRequest

abbrev pub serve : Call → List Category → List Category
serve call rows = (create_category call.editor call.fresh_id call.now call.req rows).1

abbrev pub serve_all : List Call → List Category → List Category
serve_all [] rows = rows
serve_all (call ∷ calls) rows = serve_all calls (serve call rows)
