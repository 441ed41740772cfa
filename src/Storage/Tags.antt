-- ===== src/Storage/Tags.antt =====
-- `list_all_tags` of crates/storage/src/sqlite/tag.rs, with which tags are completed as they are typed. The
-- database's LIKE with a backslash as the escape is an argument, from the pattern and the text.
pub mod Prefix
pub mod Tests
use thewiki.Prelude.{ℕ, Bool, ◌||◌, List, [], ◌∷◌, ◌++◌}
use thewiki.Prelude.Lists.{any, take}
use thewiki.Prelude.Result.{Result}
use thewiki.Prelude.Tests.{◌==◌, if◌then◌else◌}
use thewiki.Prelude.Text.{Text, text_eq}
use thewiki.Core.Tag.{to_ascii_lowercase}
use thewiki.Storage.Schema.{Db, StorageError}
use thewiki.Storage.Relations.{insert_sorted, decode_tags}
use thewiki.Storage.Pagination.{clamp_limit}

abbrev pub is_wildcard : ℕ → Bool
is_wildcard c = c == b'%' || c == b'_' || c == b'\\'

unfoldable pub escape_like : Text → Text
escape_like [] = []
escape_like (c ∷ s) =
    let rest = escape_like s in if is_wildcard c then b'\\' ∷ c ∷ rest else c ∷ rest

-- `DISTINCT` and `ORDER BY tag ASC`
abbrev pub insert_distinct : Text → List Text → List Text
insert_distinct tag tags = if any (text_eq tag) tags then tags else insert_sorted tag tags

abbrev pub tags_where : (Text → Bool) → List (ℕ × Text) → List Text
tags_where test [] = []
tags_where test (row ∷ rows) =
    let rest = tags_where test rows in if test row.1 then insert_distinct row.1 rest else rest

unfoldable pub list_all_tags :
    (Text → Text → Bool) → Text → ℕ → Db → Result StorageError (List Text)
list_all_tags like prefix limit db =
    let pattern = escape_like (to_ascii_lowercase prefix) ++ b'%' ∷ [] in
    decode_tags (take (clamp_limit limit) (tags_where (like pattern) db.page_tags))
