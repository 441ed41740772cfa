-- ===== src/Storage/Categories.antt =====
-- crates/storage/src/sqlite/category.rs: the tree of categories, with the unique slug and the foreign
-- key of migrations/20260523120000_categories_and_tags.sql. Newer rows stand first. A row's id is fresh
-- when the handler of crates/api/src/categories/routes.rs makes it.
pub mod Forest
pub mod Tests
use thewiki.Prelude.{
  ℕ, zero, suc, Option, some, none, Bool, true, false, not, ◌&&◌, ◌||◌, List, [], ◌∷◌,
}
use thewiki.Prelude.Lists.{find, any}
use thewiki.Prelude.Result.{Result, ok, err, and_then}
use thewiki.Prelude.Tests.{◌==◌, if◌then◌else◌}
use thewiki.Prelude.Text.{Text, codes, text_eq}
use thewiki.Storage.Schema.{StorageError, not_found, conflict, database, invalid_input}
use thewiki.Storage.Tables.{filter, eq_option, is_there}
use thewiki.Storage.Relations.{text_leb}

pub record Category : Type 0 where
  pub id : ℕ
  pub slug : Text
  pub display_name : Text
  pub parent_id : Option ℕ
  pub created_at : ℕ

unfoldable pub row_by_id : List Category → ℕ → Option Category
row_by_id rows id = find (λ c. c.id == id) rows

unfoldable pub row_by_slug : List Category → Text → Option Category
row_by_slug rows slug = find (λ c. text_eq c.slug slug) rows

abbrev pub parent_in : Option Category → Option ℕ
parent_in none = none
parent_in (some row) = row.parent_id

-- `SELECT parent_id`: none for a root and for an id that is not there.
unfoldable pub parent_of : List Category → ℕ → Option ℕ
parent_of rows id = parent_in (row_by_id rows id)

abbrev pub over_budget : StorageError
over_budget =
    invalid_input (codes "category ancestor walk exceeded depth budget (cycle in storage?)")

abbrev pub walk_from : Option ℕ → (ℕ → Result StorageError (List ℕ)) → Result StorageError (List ℕ)
walk_from none walk = ok []
walk_from (some parent) walk = and_then (walk parent) (λ out. ok (parent ∷ out))

-- The loop, by its budget.
unfoldable pub ancestor_ids : ℕ → List Category → ℕ → Result StorageError (List ℕ)
ancestor_ids zero rows id = err over_budget
ancestor_ids (suc budget) rows id = walk_from (parent_of rows id) (ancestor_ids budget rows)

abbrev pub depth_budget : ℕ
depth_budget = 256

abbrev pub insert_row : Category → List Category → Result StorageError (List Category)
insert_row row rows =
    if is_there (row_by_id rows row.id) || is_there (row_by_slug rows row.slug)
    then err (conflict (codes "category slug already in use"))
    else ok (row ∷ rows)

abbrev pub would_cycle : StorageError
would_cycle = conflict (codes "assigning this parent would create a category cycle")

abbrev pub unless_cycle : Category → List Category → List ℕ → Result StorageError (List Category)
unless_cycle category rows ancestors =
    if any (λ a. a == category.id) ancestors then err would_cycle else insert_row category rows

abbrev pub below : Category → ℕ → List Category → Result StorageError (List Category)
below category parent rows =
    if not (is_there (row_by_id rows parent))
    then err not_found
    else and_then (ancestor_ids depth_budget rows parent) (unless_cycle category rows)

abbrev pub create_under : Option ℕ → Category → List Category → Result StorageError (List Category)
create_under none category rows = insert_row category rows
create_under (some parent) category rows = below category parent rows

unfoldable pub create : Category → List Category → Result StorageError (List Category)
create category rows = create_under category.parent_id category rows

abbrev pub row_or_not_found : Option Category → Result StorageError Category
row_or_not_found none = err not_found
row_or_not_found (some row) = ok row

unfoldable pub get_by_slug : Text → List Category → Result StorageError Category
get_by_slug slug rows = row_or_not_found (row_by_slug rows slug)

-- `ORDER BY slug ASC`
abbrev pub insert_by_slug : Category → List Category → List Category
insert_by_slug row [] = row ∷ []
insert_by_slug row (c ∷ rows) =
    let rest = insert_by_slug row rows in
    if text_leb row.slug c.slug then row ∷ c ∷ rows else c ∷ rest

abbrev pub order_by_slug : List Category → List Category
order_by_slug [] = []
order_by_slug (row ∷ rows) = insert_by_slug row (order_by_slug rows)

unfoldable pub list_all : List Category → List Category
list_all rows = order_by_slug rows

-- `parent_id = ?1`, or `parent_id IS NULL`.
abbrev pub is_child_of : Option ℕ → Category → Bool
is_child_of none row = not (is_there row.parent_id)
is_child_of (some parent) row = eq_option row.parent_id parent

unfoldable pub list_children : Option ℕ → List Category → List Category
list_children parent rows = order_by_slug (filter (is_child_of parent) rows)

unfoldable pub get_by_id : ℕ → List Category → Result StorageError Category
get_by_id id rows = row_or_not_found (row_by_id rows id)

abbrev pub get_all : List ℕ → List Category → Result StorageError (List Category)
get_all [] rows = ok []
get_all (id ∷ ids) rows =
    and_then (get_by_id id rows) (λ row. and_then (get_all ids rows) (λ out. ok (row ∷ out)))

unfoldable pub list_ancestors : ℕ → List Category → Result StorageError (List Category)
list_ancestors id rows =
    and_then (get_by_id id rows)
      (λ row. and_then (ancestor_ids depth_budget rows id) (λ ids. get_all ids rows))
