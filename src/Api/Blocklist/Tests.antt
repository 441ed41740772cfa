-- ===== src/Api/Blocklist/Tests.antt =====
-- Runs of the blocklists of crates/api/src/blocklist.
use thewiki.Prelude.{◌≡◌, refl, ℕ, Option, some, none, true, false, not, ◌||◌, [], ◌∷◌}
use thewiki.Prelude.Lists.{any}
use thewiki.Prelude.Result.{ok, err}
use thewiki.Prelude.Tests.{◌==◌}
use thewiki.Prelude.Text.{
  Text, codes, text_eq, trim, trim_start, trim_end, drop_while, is_whitespace,
}
use thewiki.Core.Permissions.{bit_and, contains}
use thewiki.Storage.Blocklists.{Entry, Blocklists, insert_entry, delete_entry}
use thewiki.Api.Exec.{forbidden}
use thewiki.Api.Admin.{Actor}
use thewiki.Api.Blocklist.{
  Matchers, BlocklistSnapshot, SecurityRuntime, contains_ip, refresh_from, effective_client_ip,
  is_health_path, blocklist_layer, check_body_against_snapshot,
}
use thewiki.Api.Blocklist.Handlers.{Server, CreateEntryRequest, ip, create, delete}
use thewiki.Api.Blocklist.Sync.{blocks, creates, deletes, serve_all, serve_all-enforced}
use thewiki.Api.Blocklist.Race.{starting, answered, server_of, run, overtaking, overtaking-stale}

abbrev first_code : Text → Option ℕ
first_code [] = none
first_code (c ∷ s) = some c

-- Networks of one address, written as one character; an expression matches the text that it is.
abbrev chars : Matchers ℕ ℕ
chars = record {
  parse_net = first_code;
  show_net = λ net. net ∷ [];
  contains = λ net address. net == address;
  parse_ip = first_code;
  localhost = 76;
  compiles = λ pattern. true;
  set_compiles = λ patterns. true;
  is_match = λ pattern target. text_eq pattern target;
  find_urls = λ body. body ∷ [];
}

abbrev admin : Actor
admin = record { user_id = 1; username = codes "root"; permissions = 1024 }

abbrev range : ℕ → ℕ → Entry
range id net = record { id = id; pattern = net ∷ []; reason = []; created_by = 1; created_at = 0 }

abbrev lists : Blocklists
lists = record {
  ip_blocklist = range 1 65 ∷ [];
  url_blocklist = [];
  users = 1 ∷ [];
  audit_log = [];
}

abbrev snapshot : BlocklistSnapshot ℕ
snapshot = record { ip_nets = 65 ∷ []; url_patterns = [] }

abbrev server : Server ℕ
server = record { lists = lists; blocklist = some snapshot }

abbrev proxies : SecurityRuntime ℕ
proxies = record { trust_x_forwarded_for = true; trusted_proxies = 80 ∷ [] }

blocking : Unit {0}
unfolding text_eq trim trim_start trim_end drop_while is_whitespace bit_and contains insert_entry
    delete_entry refresh_from effective_client_ip blocklist_layer check_body_against_snapshot create
    delete
blocking = tt

behind_proxy :
    blocklist_layer chars proxies snapshot (codes "/") (some 80) (some (codes "A")) ≡ false
unfolding blocking
behind_proxy = refl

healthy : blocklist_layer chars proxies snapshot (codes "/readyz") (some 65) none ≡ true
unfolding blocking
healthy = refl

abbrev request : CreateEntryRequest
request = record { pattern = codes "B"; reason = [] }

not_a_manager :
    (create chars (record admin { permissions = 192 }) ip 2 0 request server).0 ≡ err forbidden
unfolding blocking
not_a_manager = refl

abbrev after_both : BlocklistSnapshot ℕ
after_both = record { ip_nets = 66 ∷ []; url_patterns = [] }

reloaded :
    (serve_all chars
      ((admin, creates ip 2 0 request) ∷ (admin, deletes ip 1) ∷ [])
      server).blocklist
    ≡ some after_both
unfolding blocking
reloaded = refl

serve_all-enforced_example : blocklist_layer chars proxies after_both (codes "/") (some 66) none ≡ (
    is_health_path chars (codes "/")
    || not (
        any
          (λ e. blocks chars e (effective_client_ip chars (some 66) none proxies))
          (serve_all chars
            ((admin, creates ip 2 0 request) ∷ (admin, deletes ip 1) ∷ [])
            server).lists.ip_blocklist))
serve_all-enforced_example =
    serve_all-enforced chars ((admin, creates ip 2 0 request) ∷ (admin, deletes ip 1) ∷ []) server
      after_both (λ rows. refl) refl reloaded proxies (codes "/") (some 66) none

both_stored :
    (insert_entry (codes "ip_blocklist.cidr already exists") (range 2 66) (1 ∷ []) (range 1 65 ∷ [])
      ≡ ok (range 2 66 ∷ range 1 65 ∷ []))
    × (insert_entry
          (codes "ip_blocklist.cidr already exists")
          (range 3 67)
          (1 ∷ [])
          (range 2 66 ∷ range 1 65 ∷ [])
        ≡ ok (range 3 67 ∷ range 2 66 ∷ range 1 65 ∷ []))
unfolding blocking
both_stored = (refl, refl)

overtaking-stale_example :
    let end =
      run chars admin
        (overtaking chars admin)
        (starting ip (range 2 66))
        (starting ip (range 3 67))
        (server_of chars admin lists (some snapshot)) in
    (end.0 ≡ answered)
    × (end.1.0 ≡ answered)
    × (any (λ e. blocks chars e 67) end.1.1.lists.ip_blocklist ≡ true)
    × ((found : BlocklistSnapshot ℕ) × (end.1.1.blocklist ≡ some found)
        × (contains_ip chars found 67 ≡ false))
overtaking-stale_example =
    overtaking-stale chars admin ip (range 2 66) (range 3 67) lists snapshot
      (range 2 66 ∷ range 1 65 ∷ []) (range 3 67 ∷ range 2 66 ∷ range 1 65 ∷ []) 67 (λ rows. refl)
      both_stored.0 both_stored.1 refl refl
