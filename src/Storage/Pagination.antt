-- ===== src/Storage/Pagination.antt =====
-- The listings of crates/storage/src/sqlite/page.rs and revision.rs that give one page of rows at a
-- time, with the bounds of crates/storage/src/repo.rs. A cursor is the pair that it
-- decodes to, whose text Pagination/Codec.antt models. The statement's ORDER BY is
-- computed before its WHERE, which gives the same rows.
pub mod Codec
pub mod Ordered
pub mod Follow
pub mod Tests
use thewiki.Prelude.{ℕ, ◌+◌, min, Option, some, none, Bool, true, ◌&&◌, ◌||◌, List, [], ◌∷◌}
use thewiki.Prelude.Lists.{length, take}
use thewiki.Prelude.Tests.{◌==◌, ltb, if◌then◌else◌}
use thewiki.Core.Page.{Page}
use thewiki.Core.Revision.{Revision}
use thewiki.Storage.Schema.{Db}
use thewiki.Storage.Tables.{filter}

pub record Cursor : Type 0 where
  pub created_at : ℕ
  pub id : ℕ

pub record PageSlice {ℓ} (A : Type ℓ) : Type ℓ where
  pub items : List A
  pub next : Option Cursor

abbrev pub default_page_size : ℕ
default_page_size = 50

abbrev pub max_page_size : ℕ
max_page_size = 500

unfoldable pub clamp_limit : ℕ → ℕ
clamp_limit limit = min (if limit == 0 then default_page_size else limit) max_page_size

-- The comparisons of two row values, `<` and `>`.
abbrev pub older : Cursor → Cursor → Bool
older a b = ltb a.created_at b.created_at || ((a.created_at == b.created_at) && ltb a.id b.id)

abbrev pub newer : Cursor → Cursor → Bool
newer a b = older b a

abbrev pub last {ℓ} : {A : Type ℓ} → List A → Option A
last [] = none
last (x ∷ []) = some x
last (x ∷ y ∷ xs) = last (y ∷ xs)

module _ {ℓ} {A : Type ℓ} (key : A → Cursor) where
  abbrev pub anchor : Option A → Option Cursor
  anchor none = none
  anchor (some row) = some (key row)

  unfoldable pub finalise_page : List A → ℕ → PageSlice A
  finalise_page rows limit =
      let has_more = ltb limit (length rows) in
      let kept = if has_more then take limit rows else rows in
      record { items = kept; next = if has_more then anchor (last kept) else none }

  module _ (precedes : Cursor → Cursor → Bool) where
    abbrev pub insert_by : A → List A → List A
    insert_by x [] = x ∷ []
    insert_by x (y ∷ ys) =
        let rest = insert_by x ys in if precedes (key x) (key y) then x ∷ y ∷ ys else y ∷ rest

    abbrev pub order_by : List A → List A
    order_by [] = []
    order_by (x ∷ xs) = insert_by x (order_by xs)

    -- The row comes strictly after the cursor's.
    abbrev pub past : Option Cursor → A → Bool
    past none row = true
    past (some cursor) row = precedes cursor (key row)

    -- The statement without its LIMIT.
    abbrev pub select : (A → Bool) → Option Cursor → List A → List A
    select where_ cursor rows = filter (past cursor) (filter where_ (order_by rows))

    abbrev pub list_page : (A → Bool) → Option Cursor → ℕ → List A → PageSlice A
    list_page where_ cursor limit rows =
        let limit = clamp_limit limit in
        finalise_page (take (limit + 1) (select where_ cursor rows)) limit

abbrev pub page_cursor : Page → Cursor
page_cursor p = record { created_at = p.created_at; id = p.id }

abbrev pub revision_cursor : Revision → Cursor
revision_cursor r = record { created_at = r.created_at; id = r.id }

abbrev pub pages_of : ℕ → Option Cursor → Db → List Page
pages_of namespace_id cursor db =
    select page_cursor older (λ p. p.namespace_id == namespace_id) cursor db.pages

unfoldable pub list_in_namespace : ℕ → Option Cursor → ℕ → Db → PageSlice Page
list_in_namespace namespace_id cursor limit db =
    list_page page_cursor older (λ p. p.namespace_id == namespace_id) cursor limit db.pages

abbrev pub revisions_of : ℕ → Option Cursor → Db → List Revision
revisions_of page_id cursor db =
    select revision_cursor newer (λ r. r.page_id == page_id) cursor db.revisions

unfoldable pub list_for_page : ℕ → Option Cursor → ℕ → Db → PageSlice Revision
list_for_page page_id cursor limit db =
    list_page revision_cursor newer (λ r. r.page_id == page_id) cursor limit db.revisions
