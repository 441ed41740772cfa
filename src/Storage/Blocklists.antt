-- ===== src/Storage/Blocklists.antt =====
-- crates/storage/src/sqlite/ip_blocklist.rs and url_blocklist.rs: two tables of one shape, of CIDRs and of
-- regular expressions, with the keys of migrations/20260523130000_blocklists.sql. The order in which
-- rows are listed, newest first, is that of their insertion.
use thewiki.Prelude.{ℕ, Option, some, none, Bool, not, ◌||◌, List, ◌∷◌}
use thewiki.Prelude.Lists.{find, any}
use thewiki.Prelude.Result.{Result, ok, err}
use thewiki.Prelude.Tests.{◌==◌, if◌then◌else◌}
use thewiki.Prelude.Text.{Text, text_eq}
use thewiki.Storage.Schema.{StorageError, not_found, conflict, database, AuditEntry}
use thewiki.Storage.Tables.{filter, is_there}

-- `IpBlocklistEntry` and `UrlBlocklistEntry`, whose second field is named for what it is.
pub record Entry : Type 0 where
  pub id : ℕ
  pub pattern : Text
  pub reason : Text
  pub created_by : ℕ
  pub created_at : ℕ

pub record Blocklists : Type 0 where
  pub ip_blocklist : List Entry
  pub url_blocklist : List Entry
  -- the ids of the users
  pub users : List ℕ
  pub audit_log : List AuditEntry

abbrev pub entry_by_id : List Entry → ℕ → Option Entry
entry_by_id rows id = find (λ e. e.id == id) rows

abbrev has_pattern : Text → List Entry → Bool
has_pattern pattern rows = any (λ e. text_eq e.pattern pattern) rows

-- `create` of either repository, with the text of its conflict.
unfoldable pub insert_entry : Text → Entry → List ℕ → List Entry → Result StorageError (List Entry)
insert_entry taken entry users rows =
    if has_pattern entry.pattern rows
    then err (conflict taken)
    else if is_there (entry_by_id rows entry.id) || not (any (λ u. u == entry.created_by) users)
    then err database
    else ok (entry ∷ rows)

abbrev pub get_entry : ℕ → List Entry → Result StorageError Entry
get_entry id rows = elim (entry_by_id rows id) [ none ↦ err not_found | some entry ↦ ok entry ]

unfoldable pub delete_entry : ℕ → List Entry → Result StorageError (List Entry)
delete_entry id rows =
    if is_there (entry_by_id rows id)
    then ok (filter (λ e. not (e.id == id)) rows)
    else err not_found
