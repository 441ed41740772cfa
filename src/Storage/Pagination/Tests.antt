-- ===== src/Storage/Pagination/Tests.antt =====
-- The listings at a wiki with three pages, two of them made in the same second, and three revisions.
use thewiki.Prelude.{ℕ, ◌≡◌, refl, [], ◌∷◌, some, none}
use thewiki.Prelude.Text.{codes}
use thewiki.Core.Page.{Page}
use thewiki.Core.Revision.{Revision}
use thewiki.Storage.Schema.{Db}
use thewiki.Storage.Tests.{start_page, empty_db}
use thewiki.Storage.Pagination.{clamp_limit, finalise_page, list_in_namespace, list_for_page}
use thewiki.Storage.Pagination.Codec.{encode_cursor, read_cursor, read_cursor-encode_cursor}
use thewiki.Prelude.Result.{ok}
use thewiki.Storage.Pagination.Follow.{walk, list_in_namespace-walk}
use native.Mathlib.Omega.{arith}

abbrev help_page : Page
help_page = record start_page { id = 11; slug = codes "help" }

abbrev old_page : Page
old_page = record start_page { id = 12; slug = codes "old"; created_at = 90 }

abbrev draft : ℕ → Revision
draft k = record {
  id = k;
  page_id = 10;
  parent_id = none;
  author_id = 7;
  body = codes "hello";
  edit_summary = none;
  created_at = 100;
}

abbrev full_db : Db
full_db = record empty_db {
  pages = help_page ∷ start_page ∷ old_page ∷ [];
  revisions = draft 20 ∷ draft 22 ∷ draft 21 ∷ [];
}

paging : Unit {0}
unfolding clamp_limit finalise_page list_in_namespace list_for_page
paging = tt

default_limit : clamp_limit 0 ≡ 50
unfolding paging
default_limit = refl

two_pages : list_in_namespace 1 none 2 full_db ≡ record {
  items = old_page ∷ start_page ∷ [];
  next = some (record { created_at = 100; id = 10 });
}
unfolding paging
two_pages = refl

list_in_namespace-walk_example :
    walk (λ c. list_in_namespace 1 c 2 full_db) 4 none ≡ old_page ∷ start_page ∷ help_page ∷ []
list_in_namespace-walk_example =
    list_in_namespace-walk 1 none 2 4 full_db (refl, (refl, (refl, tt))) (omega arith)

read_cursor-encode_cursor_example :
    read_cursor (
      encode_cursor
        (codes "2024-05-01T10:00:00Z")
        (0 ∷ 1 ∷ 15 ∷ 16 ∷ 171 ∷ 205 ∷ 239 ∷ 255 ∷ 8 ∷ 9 ∷ 10 ∷ 11 ∷ 12 ∷ 13 ∷ 14 ∷ 160 ∷ []))
    ≡ ok (
      codes "2024-05-01T10:00:00Z",
      0 ∷ 1 ∷ 15 ∷ 16 ∷ 171 ∷ 205 ∷ 239 ∷ 255 ∷ 8 ∷ 9 ∷ 10 ∷ 11 ∷ 12 ∷ 13 ∷ 14 ∷ 160 ∷ [],
    )
read_cursor-encode_cursor_example =
    read_cursor-encode_cursor (codes "2024-05-01T10:00:00Z")
      (0 ∷ 1 ∷ 15 ∷ 16 ∷ 171 ∷ 205 ∷ 239 ∷ 255 ∷ 8 ∷ 9 ∷ 10 ∷ 11 ∷ 12 ∷ 13 ∷ 14 ∷ 160 ∷ [])
      (ground arith) (ground arith) refl
