-- ===== src/Storage/Tables.antt =====
-- The statements that the repositories of crates/storage/src/sqlite issue on `pages`, `revisions`
-- and `audit_log`, with the keys, the uniqueness and the foreign keys of
-- migrations/00000000000000_init.sql: a statement that breaks one changes nothing.
pub mod Lookup
pub mod Owned
use thewiki.Prelude.{ℕ, Option, some, none, Bool, true, false, not, ◌&&◌, ◌||◌, List, [], ◌∷◌, map}
use thewiki.Prelude.Lists.{find, any}
use thewiki.Prelude.Result.{Result, ok, err}
use thewiki.Prelude.Tests.{◌==◌, if◌then◌else◌}
use thewiki.Prelude.Text.{Text, codes, text_eq}
use thewiki.Core.Page.{Page}
use thewiki.Core.Revision.{Revision}
use thewiki.Core.PendingRevision.{PendingRevision}
use thewiki.Storage.Schema.{
  Db, User, StorageError, not_found, conflict, database, AuditEntry, PageLink,
}

abbrev pub filter {ℓ} : {A : Type ℓ} → (A → Bool) → List A → List A
filter p [] = []
filter p (x ∷ xs) = let rest = filter p xs in if p x then x ∷ rest else rest

-- The update statement on one key.
abbrev pub update_where {ℓ} : {A : Type ℓ} → (A → Bool) → (A → A) → List A → List A
update_where p f [] = []
update_where p f (x ∷ xs) = (if p x then f x else x) ∷ update_where p f xs

abbrev pub eq_option : Option ℕ → ℕ → Bool
eq_option none b = false
eq_option (some a) b = a == b

unfoldable pub page_by_id : List Page → ℕ → Option Page
page_by_id rows id = find (λ p. p.id == id) rows

unfoldable pub page_by_slug : List Page → ℕ → Text → Option Page
page_by_slug rows namespace_id slug =
    find (λ p. p.namespace_id == namespace_id && text_eq p.slug slug) rows

unfoldable pub revision_by_id : List Revision → ℕ → Option Revision
revision_by_id rows id = find (λ r. r.id == id) rows

unfoldable pub user_exists : List User → ℕ → Bool
user_exists rows id = any (λ u. u.id == id) rows

abbrev pub is_there {ℓ} : {A : Type ℓ} → Option A → Bool
is_there none = false
is_there (some a) = true

-- A foreign key that may be NULL.
abbrev pub references : Option ℕ → List Revision → Bool
references none rows = true
references (some id) rows = is_there (revision_by_id rows id)

abbrev pub duplicate_slug : StorageError
duplicate_slug = conflict (codes "page slug already exists in namespace")

unfoldable pub insert_page : Page → Db → Result StorageError Db
insert_page page db =
    if is_there (page_by_id db.pages page.id)
      || is_there (page_by_slug db.pages page.namespace_id page.slug)
    then err duplicate_slug
    else if any (λ n. n.id == page.namespace_id) db.namespaces
        && references page.current_revision_id db.revisions
    then ok (record db { pages = page ∷ db.pages })
    else err database

-- The columns that `UPDATE pages SET` names; the namespace and the creation time stay.
abbrev pub overwrite : Page → Page → Page
overwrite page row = record row {
  slug = page.slug;
  title = page.title;
  current_revision_id = page.current_revision_id;
  content_format = page.content_format;
  protection_level = page.protection_level;
  updated_at = page.updated_at;
}

-- Another page of the row's namespace has the new slug.
abbrev pub slug_taken : Page → Page → List Page → Bool
slug_taken page row rows =
    any
      (λ p.
        not (p.id == row.id) && (p.namespace_id == row.namespace_id && text_eq p.slug page.slug))
      rows

unfoldable pub update_page : Page → Db → Result StorageError Db
update_page page db = elim (page_by_id db.pages page.id) [
  | none ↦ err not_found
  | some row ↦
      if slug_taken page row db.pages
      then err duplicate_slug
      else if references page.current_revision_id db.revisions
      then ok (record db { pages = update_where (λ p. p.id == page.id) (overwrite page) db.pages })
      else err database
]

unfoldable pub insert_revision : Revision → Db → Result StorageError Db
insert_revision revision db =
    if is_there (revision_by_id db.revisions revision.id)
    then err database
    else if is_there (page_by_id db.pages revision.page_id)
        && (references revision.parent_id (revision ∷ db.revisions)
            && user_exists db.users revision.author_id)
    then ok (record db { revisions = revision ∷ db.revisions })
    else err database

unfoldable pub insert_audit : AuditEntry → Db → Db
insert_audit entry db = record db { audit_log = entry ∷ db.audit_log }

abbrev pub clear_if : (ℕ → Bool) → Option ℕ → Option ℕ
clear_if gone none = none
clear_if gone (some id) = if gone id then none else some id

-- The revision is one of the page that goes.
abbrev pub is_gone : ℕ → List Revision → ℕ → Bool
is_gone page_id rows id = any (λ r. r.id == id && r.page_id == page_id) rows

abbrev pub clear_head : (ℕ → Bool) → Page → Page
clear_head gone p = record p { current_revision_id = clear_if gone p.current_revision_id }

abbrev pub clear_parent : (ℕ → Bool) → Revision → Revision
clear_parent gone r = record r { parent_id = clear_if gone r.parent_id }

abbrev pub clear_pending_parent : (ℕ → Bool) → PendingRevision → PendingRevision
clear_pending_parent gone p = record p { parent_revision_id = clear_if gone p.parent_revision_id }

-- `ON DELETE CASCADE` takes the rows of the page along, `ON DELETE SET NULL` clears what
-- refers to its revisions.
abbrev pub cascade : ℕ → Db → Db
cascade page_id db =
    let gone = is_gone page_id db.revisions in
    record db {
      pages = map (clear_head gone) (filter (λ p. not (p.id == page_id)) db.pages);
      revisions = map (clear_parent gone) (filter (λ r. not (r.page_id == page_id)) db.revisions);
      pending_revisions =
          map (clear_pending_parent gone)
            (filter (λ p. not (p.page_id == page_id)) db.pending_revisions);
      page_links = filter (λ l. not (l.source_page_id == page_id)) db.page_links;
      page_categories = filter (λ c. not (c.0 == page_id)) db.page_categories;
      page_tags = filter (λ t. not (t.0 == page_id)) db.page_tags;
    }

-- No row deleted is an error of the callers'.
unfoldable pub delete_page : ℕ → Db → Result StorageError Db
delete_page page_id db =
    if is_there (page_by_id db.pages page_id) then ok (cascade page_id db) else err not_found
