-- ===== src/Storage/Relations.antt =====
-- What hangs on a page or a user: crates/storage/src/sqlite/page_link.rs, tag.rs, category.rs,
-- notification.rs, namespace.rs. Each replacement is one transaction: clear, then insert what is new.
use thewiki.Prelude.{ℕ, Option, some, none, Bool, true, false, not, ◌&&◌, ◌||◌, List, [], ◌∷◌, map}
use thewiki.Prelude.Lists.{find, any, all}
use thewiki.Prelude.Result.{Result, ok, err, and_then, map_err}
use thewiki.Prelude.Tests.{◌==◌, ltb, if◌then◌else◌}
use thewiki.Prelude.Text.{Text, codes, text_eq}
use thewiki.Core.Page.{Namespace}
use thewiki.Core.Tag.{new}
use thewiki.Storage.Schema.{
  Db, StorageError, not_found, database, invalid_input, conflict, PageLink, Notification, User,
}
use thewiki.Storage.Tables.{filter, page_by_id, is_there, user_exists}

-- `INSERT OR IGNORE`, one row after the other
abbrev insert_new {ℓ} : {A : Type ℓ} → (A → A → Bool) → List A → List A → List A
insert_new same [] table = table
insert_new same (row ∷ rows) table =
    insert_new same rows (if any (same row) table then table else row ∷ table)

abbrev link_eq : PageLink → PageLink → Bool
link_eq a b =
    a.source_page_id == b.source_page_id
    && (text_eq a.target_namespace_slug b.target_namespace_slug
        && text_eq a.target_page_slug b.target_page_slug)

abbrev pub foreign_source : StorageError
foreign_source =
    invalid_input (codes "PageLink.source_page_id must match the replace_for_source argument")

abbrev other_links : ℕ → Db → List PageLink
other_links source db = filter (λ l. not (l.source_page_id == source)) db.page_links

-- A row of another page is an error, and so is a page that is not there.
unfoldable pub insert_links : ℕ → PageLink → List PageLink → Db → Result StorageError Db
insert_links source l ls db =
    if not (l.source_page_id == source)
    then err foreign_source
    else if not (is_there (page_by_id db.pages source))
    then err database
    else if not (all (λ k. k.source_page_id == source) ls)
    then err foreign_source
    else ok (record db { page_links = insert_new link_eq (l ∷ ls) (other_links source db) })

unfoldable pub replace_links : ℕ → List PageLink → Db → Result StorageError Db
replace_links source [] db = ok (record db { page_links = other_links source db })
replace_links source (l ∷ ls) db = insert_links source l ls db

abbrev other_tags : ℕ → Db → List (ℕ × Text)
other_tags page_id db = filter (λ t. not (t.0 == page_id)) db.page_tags

abbrev tag_row_eq : ℕ × Text → ℕ × Text → Bool
tag_row_eq a b = a.0 == b.0 && text_eq a.1 b.1

unfoldable pub assign_tags : ℕ → List Text → Db → Result StorageError Db
assign_tags page_id [] db = ok (record db { page_tags = other_tags page_id db })
assign_tags page_id (t ∷ ts) db =
    if is_there (page_by_id db.pages page_id)
    then ok (record db {
      page_tags =
          insert_new tag_row_eq (map (λ tag. (page_id, tag)) (t ∷ ts)) (other_tags page_id db);
    })
    else err database

abbrev pub text_leb : Text → Text → Bool
text_leb [] t = true
text_leb (c ∷ s) [] = false
text_leb (c ∷ s) (d ∷ t) = ltb c d || (c == d && text_leb s t)

abbrev pub insert_sorted : Text → List Text → List Text
insert_sorted s [] = s ∷ []
insert_sorted s (t ∷ ts) = if text_leb s t then s ∷ t ∷ ts else t ∷ insert_sorted s ts

abbrev tags_of : ℕ → List (ℕ × Text) → List Text
tags_of page_id [] = []
tags_of page_id (t ∷ ts) =
    let rest = tags_of page_id ts in if t.0 == page_id then insert_sorted t.1 rest else rest

abbrev pub decode_tags : List Text → Result StorageError (List Text)
decode_tags [] = ok []
decode_tags (t ∷ ts) =
    and_then (map_err (λ e. invalid_input (codes "stored tag invalid")) (new t))
      (λ tag. and_then (decode_tags ts) (λ rest. ok (tag ∷ rest)))

-- `ORDER BY tag`
unfoldable pub tags_for_page : ℕ → Db → Result StorageError (List Text)
tags_for_page page_id db = decode_tags (tags_of page_id db.page_tags)

abbrev other_categories : ℕ → Db → List (ℕ × ℕ)
other_categories page_id db = filter (λ c. not (c.0 == page_id)) db.page_categories

unfoldable pub replace_categories : ℕ → List ℕ → Db → Result StorageError Db
replace_categories page_id [] db = ok (record db { page_categories = other_categories page_id db })
replace_categories page_id (i ∷ ids) db =
    if is_there (page_by_id db.pages page_id)
      && all (λ k. any (λ c. c == k) db.categories) (i ∷ ids)
    then ok (record db {
      page_categories =
          insert_new (λ a b. a.0 == b.0 && a.1 == b.1) (map (λ k. (page_id, k)) (i ∷ ids))
            (other_categories page_id db);
    })
    else err database

unfoldable pub notify : Notification → Db → Result StorageError Db
notify new db =
    if user_exists db.users new.user_id
    then ok (record db { notifications = new ∷ db.notifications })
    else err database

abbrev row_or_not_found : {A : Type 0} → Option A → Result StorageError A
row_or_not_found none = err not_found
row_or_not_found (some a) = ok a

unfoldable pub namespace_by_slug : Text → Db → Result StorageError Namespace
namespace_by_slug slug db = row_or_not_found (find (λ n. text_eq n.slug slug) db.namespaces)

unfoldable pub namespace_by_id : ℕ → Db → Result StorageError Namespace
namespace_by_id id db = row_or_not_found (find (λ n. n.id == id) db.namespaces)

-- A user's name is unique.
unfoldable pub create_user : User → Db → Result StorageError Db
create_user user db =
    if any (λ u. u.id == user.id || text_eq u.username user.username) db.users
    then err (conflict (codes "username already taken"))
    else ok (record db { users = user ∷ db.users })
