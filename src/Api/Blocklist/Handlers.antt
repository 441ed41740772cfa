-- ===== src/Api/Blocklist/Handlers.antt =====
-- The handlers of crates/api/src/admin/blocklist.rs that change the lists: the tables, then the snapshot,
-- then the audit row.
use thewiki.Prelude.{ℕ, Option, some, none, List, [], ◌∷◌}
use thewiki.Prelude.Result.{Result, ok, err, and_then, map_err}
use thewiki.Prelude.Tests.{if◌then◌else◌}
use thewiki.Prelude.Text.{Text, codes, text_eq, trim}
use thewiki.Core.Permissions.{manage_blocklist}
use thewiki.Storage.Schema.{AuditEntry, Metadata, uuid, string}
use thewiki.Storage.Blocklists.{Entry, Blocklists, insert_entry, get_entry, delete_entry}
use thewiki.Api.Exec.{ApiError, invalid_input, from_storage}
use thewiki.Api.Admin.{Actor, ensure}
use thewiki.Api.Blocklist.{Matchers, BlocklistSnapshot, refresh_from}

pub record CreateEntryRequest : Type 0 where
  pub pattern : Text
  pub reason : Text

-- The tables and, unless the server runs without one, the snapshot.
pub record Server (Net : Type 0) : Type 0 where
  pub lists : Blocklists
  pub blocklist : Option (BlocklistSnapshot Net)

-- The two lists; a handler's text differs by it.
pub data Kind : Type 0 where
  ip : Kind
  url : Kind

abbrev pub rows_of : Kind → Blocklists → List Entry
rows_of ip lists = lists.ip_blocklist
rows_of url lists = lists.url_blocklist

abbrev pub with_rows : Kind → List Entry → Blocklists → Blocklists
with_rows ip rows lists = record lists { ip_blocklist = rows }
with_rows url rows lists = record lists { url_blocklist = rows }

abbrev pub key_of : Kind → Text
key_of ip = codes "cidr"
key_of url = codes "pattern"

abbrev pub table_of : Kind → Text
table_of ip = codes "ip_blocklist"
table_of url = codes "url_blocklist"

abbrev pub create_action : Kind → Text
create_action ip = codes "blocklist.ip.create"
create_action url = codes "blocklist.url.create"

abbrev pub delete_action : Kind → Text
delete_action ip = codes "blocklist.ip.delete"
delete_action url = codes "blocklist.url.delete"

abbrev pub already_exists : Kind → Text
already_exists ip = codes "ip_blocklist.cidr already exists"
already_exists url = codes "url_blocklist.pattern already exists"

abbrev pub list_event : Actor → Text → Kind → Entry → Metadata → AuditEntry
list_event actor action kind entry metadata = record {
  actor_id = actor.user_id;
  actor_username = actor.username;
  action = action;
  target_kind = table_of kind;
  target_id = entry.id;
  target_label = some entry.pattern;
  metadata = metadata;
}

abbrev pub log : {Net : Type 0} → AuditEntry → Server Net → Server Net
log entry server =
    let lists = server.lists in
    record server { lists = record lists { audit_log = entry ∷ lists.audit_log } }

module _ {Net Ip : Type 0} (m : Matchers Net Ip) where
  -- What is stored of a pattern that a request names.
  abbrev pub stored_pattern : Kind → Text → Result ApiError Text
  stored_pattern ip cidr = elim (m.parse_net cidr) [
    | none ↦ err (invalid_input (codes "cidr"))
    | some net ↦ ok (m.show_net net)
  ]
  stored_pattern url pattern =
      if text_eq (trim pattern) []
      then err (invalid_input (codes "pattern must not be empty"))
      else if m.compiles pattern
      then ok pattern
      else err (invalid_input (codes "pattern"))

  -- `refresh_blocklist_snapshot`, then the rest of the handler.
  abbrev pub refreshed :
      {A : Type 0}
      → AuditEntry
      → A
      → Blocklists
      → Option (BlocklistSnapshot Net)
      → Result ApiError A × Server Net
  refreshed entry answer lists none =
      (ok answer, log entry (record { lists = lists; blocklist = none }))
  refreshed entry answer lists (some stale) = elim (refresh_from m lists) [
    | err e ↦ (err (from_storage e), record { lists = lists; blocklist = some stale })
    | ok snapshot ↦ (ok answer, log entry (record { lists = lists; blocklist = some snapshot }))
  ]

  abbrev pub create_event : Actor → Kind → Entry → AuditEntry
  create_event actor kind entry =
      list_event actor (create_action kind) kind entry
        ((key_of kind, string entry.pattern) ∷ (codes "reason", string entry.reason) ∷ [])

  abbrev pub new_entry : Actor → (id now : ℕ) → Text → Text → Entry
  new_entry actor id now pattern reason = record {
    id = id;
    pattern = pattern;
    reason = reason;
    created_by = actor.user_id;
    created_at = now;
  }

  abbrev pub add : Actor → Kind → Entry → Server Net → Result ApiError Entry × Server Net
  add actor kind entry server =
      let lists = server.lists in
      elim (insert_entry (already_exists kind) entry lists.users (rows_of kind lists)) [
        | err e ↦ (err (from_storage e), server)
        | ok rows ↦
            refreshed (create_event actor kind entry) entry (with_rows kind rows lists)
              server.blocklist
      ]

  abbrev pub checked_pattern : Actor → Kind → CreateEntryRequest → Result ApiError Text
  checked_pattern actor kind req =
      and_then (ensure manage_blocklist actor) (λ _. stored_pattern kind req.pattern)

  -- `create_ip` and `create_url`
  unfoldable pub create :
      Actor
      → Kind
      → (id now : ℕ) → CreateEntryRequest
      → Server Net
      → Result ApiError Entry × Server Net
  create actor kind id now req server = elim (checked_pattern actor kind req) [
    | err e ↦ (err e, server)
    | ok pattern ↦ add actor kind (new_entry actor id now pattern req.reason) server
  ]

  abbrev pub delete_event : Actor → Kind → Entry → AuditEntry
  delete_event actor kind entry = list_event actor (delete_action kind) kind entry (
      (codes "id", uuid entry.id)
      ∷ (key_of kind, string entry.pattern)
      ∷ (codes "reason", string entry.reason)
      ∷ (codes "created_by", uuid entry.created_by)
      ∷ [])

  abbrev pub remove :
      Actor → Kind → Entry → ℕ → Server Net → Result ApiError (Unit {0}) × Server Net
  remove actor kind existing id server =
      let lists = server.lists in
      elim (delete_entry id (rows_of kind lists)) [
        | err e ↦ (err (from_storage e), server)
        | ok rows ↦
            refreshed (delete_event actor kind existing) tt (with_rows kind rows lists)
              server.blocklist
      ]

  abbrev pub checked_entry : Actor → Kind → ℕ → Server Net → Result ApiError Entry
  checked_entry actor kind id server =
      let lists = server.lists in
      and_then (ensure manage_blocklist actor)
        (λ _. map_err from_storage (get_entry id (rows_of kind lists)))

  -- `delete_ip` and `delete_url`
  unfoldable pub delete : Actor → Kind → ℕ → Server Net → Result ApiError (Unit {0}) × Server Net
  delete actor kind id server = elim (checked_entry actor kind id server) [
    | err e ↦ (err e, server)
    | ok existing ↦ remove actor kind existing id server
  ]
