-- ===== src/Storage/Namespaces.antt =====
-- The statements of crates/storage/src/sqlite/namespace.rs that change the table, with the unique slug,
-- the unique pair and the foreign keys of migrations/20260523140000_talk_namespaces.sql. A statement
-- that fails changes nothing, and neither does a transaction that ends in an error.
pub mod Pairs
pub mod Create
pub mod Refused
pub mod Tests
use thewiki.Prelude.{
  ℕ, Option, some, none, Bool, true, false, not, ◌&&◌, ◌||◌, List, [], ◌∷◌, ◌++◌, map,
}
use thewiki.Prelude.Lists.{find, any}
use thewiki.Prelude.Result.{Result, ok, err, and_then}
use thewiki.Prelude.Tests.{◌==◌, if◌then◌else◌}
use thewiki.Prelude.Text.{Text, codes, text_eq}
use thewiki.Core.NamespaceSlug.{new}
use thewiki.Core.Page.{Namespace, Page}
use thewiki.Storage.Schema.{StorageError, not_found, conflict, database, invalid_input}
use thewiki.Storage.Tables.{filter, update_where, eq_option, is_there, clear_if}

abbrev pub Rows : Type 0
Rows = List Namespace

unfoldable pub row_by_id : Rows → ℕ → Option Namespace
row_by_id rows id = find (λ n. n.id == id) rows

unfoldable pub row_by_slug : Rows → Text → Option Namespace
row_by_slug rows slug = find (λ n. text_eq n.slug slug) rows

-- Another row has this pair already.
unfoldable pub pair_taken : ℕ → ℕ → Rows → Bool
pair_taken id paired rows =
    any (λ n. not (n.id == id) && eq_option n.paired_namespace_id paired) rows

abbrev pub slug_in_use : StorageError
slug_in_use = conflict (codes "namespace slug already in use")

abbrev pub admits_pair : Namespace → Option ℕ → Rows → Result StorageError Rows
admits_pair row none rows = ok (row ∷ rows)
admits_pair row (some paired) rows =
    if pair_taken row.id paired rows
    then err slug_in_use
    else if is_there (row_by_id (row ∷ rows) paired)
    then ok (row ∷ rows)
    else err database

unfoldable pub insert_row_tx : Namespace → Rows → Result StorageError Rows
insert_row_tx row rows =
    if is_there (row_by_id rows row.id) || is_there (row_by_slug rows row.slug)
    then err slug_in_use
    else admits_pair row row.paired_namespace_id rows

abbrev pub with_pair : ℕ → Namespace → Namespace
with_pair paired row = record row { paired_namespace_id = some paired }

unfoldable pub set_pair_tx : ℕ → ℕ → Rows → Result StorageError Rows
set_pair_tx id paired rows =
    if is_there (row_by_id rows id)
      && (pair_taken id paired rows || not (is_there (row_by_id rows paired)))
    then err database
    else ok (update_where (λ n. n.id == id) (with_pair paired) rows)

abbrev pub could_not_derive : Text → StorageError
could_not_derive slug = invalid_input (codes "could not derive talk slug from " ++ slug)

-- The id is fresh.
unfoldable pub build_talk_pair : ℕ → Namespace → Result StorageError Namespace
build_talk_pair fresh_id subject = elim (new (codes "Talk_" ++ subject.slug)) [
  | err e ↦ err (could_not_derive subject.slug)
  | ok slug ↦ ok (record {
    id = fresh_id;
    slug = slug;
    display_name = codes "Talk: " ++ subject.display_name;
    is_talk = true;
    paired_namespace_id = some subject.id;
  })
]

-- A row that has the talk slug is taken for the discussion side.
unfoldable pub reuse : Namespace → Text → Rows → Result StorageError Rows
reuse subject slug rows = elim (row_by_slug rows slug) [
  | none ↦ err not_found
  | some existing ↦
      and_then
        (if is_there existing.paired_namespace_id
          then ok rows
          else set_pair_tx existing.id subject.id rows)
        (set_pair_tx subject.id existing.id)
]

abbrev pub link : Namespace → Namespace → Rows → Result StorageError Rows → Result StorageError Rows
link subject talk rows (ok inserted) = set_pair_tx subject.id talk.id inserted
link subject talk rows (err (conflict message)) = reuse subject talk.slug rows
link subject talk rows (err e) = err e

unfoldable pub create : ℕ → Namespace → Rows → Result StorageError Rows
create fresh_id namespace rows = and_then (insert_row_tx namespace rows) (λ rows.
    if not namespace.is_talk && not (is_there namespace.paired_namespace_id)
    then and_then (build_talk_pair fresh_id namespace)
        (λ talk. link namespace talk rows (insert_row_tx talk rows))
    else ok rows)

abbrev pub unpair : ℕ → Namespace → Namespace
unpair id row = record row { paired_namespace_id = clear_if (λ p. p == id) row.paired_namespace_id }

-- `pages.namespace_id` is ON DELETE RESTRICT, the pair ON DELETE SET NULL.
unfoldable pub delete : ℕ → List Page → Rows → Result StorageError Rows
delete id pages rows =
    if not (is_there (row_by_id rows id))
    then err not_found
    else if any (λ p. p.namespace_id == id) pages
    then err (conflict (codes "namespace still contains pages"))
    else ok (map (unpair id) (filter (λ n. not (n.id == id)) rows))

unfoldable pub update_display_name : ℕ → Text → Rows → Result StorageError Rows
update_display_name id display_name rows =
    if is_there (row_by_id rows id)
    then ok (update_where (λ n. n.id == id) (λ n. record n { display_name = display_name }) rows)
    else err not_found

abbrev pub default_namespace_slug : Text
default_namespace_slug = codes "Main"

abbrev pub template_namespace_slug : Text
template_namespace_slug = codes "Template"

abbrev pub created : Namespace → Rows → Result StorageError Rows → Result StorageError Rows
created row rows (ok made) = ok made
created row rows (err (conflict message)) =
    if is_there (row_by_slug rows row.slug) then ok rows else err not_found
created row rows (err e) = err e

-- The table after `get_or_create_by_slug`; no other caller comes between.
unfoldable pub get_or_create_by_slug : ℕ → ℕ → Text → Rows → Result StorageError Rows
get_or_create_by_slug fresh_id fresh_talk_id slug rows = elim (new slug) [
  | err e ↦ err (invalid_input (codes "namespace slug is invalid"))
  | ok slug ↦
      if is_there (row_by_slug rows slug)
      then ok rows
      else let row : Namespace = record {
        id = fresh_id;
        slug = slug;
        display_name = slug;
        is_talk = false;
        paired_namespace_id = none;
      } in
        created row rows (create fresh_talk_id row rows)
]
