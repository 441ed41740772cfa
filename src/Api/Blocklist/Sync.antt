-- ===== src/Api/Blocklist/Sync.antt =====
-- That the snapshot of crates/api/src/blocklist/state.rs follows the tables while the handlers of
-- crates/api/src/admin/blocklist.rs run one after the other, and what the layer then blocks.
use thewiki.Prelude.{
  ◌≡◌, refl, ap, sym, ◌∙◌, ℕ, Option, some, none, Bool, true, false, not, ◌||◌, List, [], ◌∷◌, inl,
  inr,
}
use mathlib.Core.Option.{some-injective}
use thewiki.Prelude.Lists.{any}
use thewiki.Prelude.Result.{ok, Result-cases}
use thewiki.Prelude.Tests.{Option-cases}
use thewiki.Prelude.Text.{Text}
use thewiki.Storage.Schema.{AuditEntry}
use thewiki.Storage.Blocklists.{Entry, Blocklists, insert_entry, delete_entry}
use thewiki.Api.Admin.{Actor}
use thewiki.Api.Blocklist.{
  Matchers, BlocklistSnapshot, SecurityRuntime, contains_ip, nets_of, patterns_of, snapshot_of,
  refresh_from, effective_client_ip, is_health_path, blocklist_layer,
}
use thewiki.Api.Blocklist.Handlers.{
  CreateEntryRequest, Server, Kind, rows_of, with_rows, refreshed, already_exists, new_entry, add,
  checked_pattern, create, remove, checked_entry, delete, create_event, delete_event,
}

module _ {Net Ip : Type 0} (m : Matchers Net Ip) where
  abbrev pub blocks : Entry → Ip → Bool
  blocks entry ip = elim (m.parse_net entry.pattern) [ none ↦ false | some net ↦ m.contains net ip ]

  pub any-nets_of :
      (rows : List Entry) (ip : Ip)
      → any (λ net. m.contains net ip) (nets_of m rows) ≡ any (λ e. blocks e ip) rows
  any-nets_of [] ip = refl
  any-nets_of (e ∷ rows) ip = elim (Option-cases (m.parse_net e.pattern)) [
    | inl p ↦ rw (blocks, p) (any-nets_of rows ip)
    | inr (net, p) ↦ rw (blocks, p) (ap (λ b. m.contains net ip || b) (any-nets_of rows ip))
  ]

  -- The size limit of a set of expressions is never met.
  abbrev pub Combines : Type 0
  Combines = (rows : List Entry) → m.set_compiles (patterns_of m rows) ≡ true

  abbrev pub Follows : Option (BlocklistSnapshot Net) → Blocklists → Type 0
  Follows none lists = Unit
  Follows (some snapshot) lists = snapshot ≡ snapshot_of m lists

  abbrev pub InSync : Server Net → Type 0
  InSync server = Follows server.blocklist server.lists

  pub refresh_from-Combines :
      (lists : Blocklists) → Combines → refresh_from m lists ≡ ok (snapshot_of m lists)
  unfolding refresh_from
  refresh_from-Combines lists combines = rw (refresh_from, combines lists.url_blocklist) refl

  refreshed-InSync :
      {A : Type 0} (entry : AuditEntry) (answer : A) (lists : Blocklists)
      (blocklist : Option (BlocklistSnapshot Net))
      → Combines
      → InSync (refreshed m entry answer lists blocklist).1
  refreshed-InSync entry answer lists none combines = tt
  refreshed-InSync entry answer lists (some stale) combines =
      rw (refreshed, refresh_from-Combines lists combines) refl

  add-InSync :
      (actor : Actor) (kind : Kind) (entry : Entry) (server : Server Net)
      → Combines
      → InSync server
      → InSync (add m actor kind entry server).1
  add-InSync actor kind entry server combines sync =
      let lists = server.lists in
      elim (Result-cases
        (insert_entry (already_exists kind) entry lists.users (rows_of kind lists))) [
          | inl (rows, p) ↦
              rw (add, p)
                (refreshed-InSync (create_event m actor kind entry) entry
                  (with_rows kind rows lists) server.blocklist combines)
          | inr (e, p) ↦ rw (add, p) sync
        ]

  remove-InSync :
      (actor : Actor) (kind : Kind) (existing : Entry) (id : ℕ) (server : Server Net)
      → Combines
      → InSync server
      → InSync (remove m actor kind existing id server).1
  remove-InSync actor kind existing id server combines sync =
      let lists = server.lists in
      elim (Result-cases (delete_entry id (rows_of kind lists))) [
        | inl (rows, p) ↦
            rw (remove, p)
              (refreshed-InSync (delete_event m actor kind existing) tt (with_rows kind rows lists)
                server.blocklist combines)
        | inr (e, p) ↦ rw (remove, p) sync
      ]

-- The requests that change the lists.
pub data ListRequest : Type 0 where
  creates : Kind → (id now : ℕ) → CreateEntryRequest → ListRequest
  deletes : Kind → (id : ℕ) → ListRequest

module _ {Net Ip : Type 0} (m : Matchers Net Ip) where
  abbrev pub serve : Actor → ListRequest → Server Net → Server Net
  serve actor (creates kind id now req) server = (create m actor kind id now req server).1
  serve actor (deletes kind id) server = (delete m actor kind id server).1

  abbrev pub serve_all : List (Actor × ListRequest) → Server Net → Server Net
  serve_all [] server = server
  serve_all ((actor, request) ∷ requests) server = serve_all requests (serve actor request server)

  serve-InSync :
      (actor : Actor) (request : ListRequest) (server : Server Net)
      → Combines m
      → InSync m server
      → InSync m (serve actor request server)
  unfolding create delete
  serve-InSync actor (creates kind id now req) server combines sync =
      elim (Result-cases (checked_pattern m actor kind req)) [
        | inl (pattern, p) ↦
            rw (serve, create, p)
              (add-InSync m actor kind (new_entry m actor id now pattern req.reason) server combines
                sync)
        | inr (e, p) ↦ rw (serve, create, p) sync
      ]
  serve-InSync actor (deletes kind id) server combines sync =
      elim (Result-cases (checked_entry m actor kind id server)) [
        | inl (existing, p) ↦
            rw (serve, delete, p) (remove-InSync m actor kind existing id server combines sync)
        | inr (e, p) ↦ rw (serve, delete, p) sync
      ]

  serve_all-InSync :
      (requests : List (Actor × ListRequest)) (server : Server Net)
      → Combines m
      → InSync m server
      → InSync m (serve_all requests server)
  serve_all-InSync [] server combines sync = sync
  serve_all-InSync ((actor, request) ∷ requests) server combines sync =
      serve_all-InSync requests (serve actor request server) combines
        (serve-InSync actor request server combines sync)

  followed :
      (snapshot : BlocklistSnapshot Net) (blocklist : Option (BlocklistSnapshot Net))
      (lists : Blocklists)
      → Follows m blocklist lists
      → blocklist ≡ some snapshot
      → snapshot ≡ snapshot_of m lists
  followed snapshot none lists follows h = cc
  followed snapshot (some kept) lists follows h = sym (some-injective kept snapshot h) ∙ follows

  -- If the set of expressions always compiles and the snapshot is that of the tables, then after every
  -- run of requests to the lists, one after the other, those that fail included, the layer lets a request
  -- through exactly if its path is a health probe's or no row of the stored IP list has its address.
  pub serve_all-enforced :
      (requests : List (Actor × ListRequest)) (server : Server Net)
      (snapshot : BlocklistSnapshot Net)
      → Combines m
      → InSync m server
      → (serve_all requests server).blocklist ≡ some snapshot
      → (runtime : SecurityRuntime Net) (path : Text) (peer : Option Ip) (forwarded : Option Text)
      → blocklist_layer m runtime snapshot path peer forwarded ≡ (
          is_health_path m path
          || not (
              any
                (λ e. blocks m e (effective_client_ip m peer forwarded runtime))
                (serve_all requests server).lists.ip_blocklist))
  unfolding blocklist_layer
  serve_all-enforced requests server snapshot combines sync h runtime path peer forwarded =
      let after = serve_all requests server in
      let ip = effective_client_ip m peer forwarded runtime in
      let same =
        followed snapshot after.blocklist after.lists
          (serve_all-InSync requests server combines sync) h in
      ap (λ s. is_health_path m path || not (contains_ip m s ip)) same
      ∙ ap (λ b. is_health_path m path || not b) (any-nets_of m after.lists.ip_blocklist ip)
