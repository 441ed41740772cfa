-- ===== src/Api/Blocklist.antt =====
-- crates/api/src/blocklist: the snapshot of state.rs, the address of peer_ip.rs, the layer of
-- middleware.rs and the test of a page's body in url_check.rs. Networks, addresses and regular
-- expressions are a parameter.
pub mod Handlers
pub mod Sync
pub mod Race
pub mod Tests
use thewiki.Prelude.{ℕ, Option, some, none, Bool, true, false, not, ◌&&◌, ◌||◌, List, [], ◌∷◌, map}
use mathlib.Core.List.{reverse}
use thewiki.Prelude.Lists.{find, any, all}
use thewiki.Prelude.Result.{Result, ok, err}
use thewiki.Prelude.Tests.{if◌then◌else◌}
use thewiki.Prelude.Text.{Text, codes, text_eq, trim, split}
use thewiki.Storage.Schema.{StorageError, invalid_input}
use thewiki.Storage.Tables.{filter}
use thewiki.Storage.Blocklists.{Entry, Blocklists}
use thewiki.Api.RateLimit.{filter_map, trim_matches, unwrap_or, and_then_some}

-- What the crates `ipnet` and `regex` and the parser of addresses give.
pub record Matchers (Net Ip : Type 0) : Type 0 where
  pub parse_net : Text → Option Net
  pub show_net : Net → Text
  pub contains : Net → Ip → Bool
  pub parse_ip : Text → Option Ip
  pub localhost : Ip
  pub compiles : Text → Bool
  pub set_compiles : List Text → Bool
  pub is_match : (pattern url : Text) → Bool
  pub find_urls : Text → List Text

pub record BlocklistSnapshot (Net : Type 0) : Type 0 where
  pub ip_nets : List Net
  pub url_patterns : List Text

pub record SecurityRuntime (Net : Type 0) : Type 0 where
  pub trust_x_forwarded_for : Bool
  pub trusted_proxies : List Net

pub record UrlBlockMatch : Type 0 where
  pub url : Text
  pub matched_patterns : List Text

abbrev pub some_if_any {ℓ} : {A : Type ℓ} → List A → Option (List A)
some_if_any [] = none
some_if_any (x ∷ xs) = some (x ∷ xs)

module _ {Net Ip : Type 0} (m : Matchers Net Ip) where
  abbrev pub contains_ip : BlocklistSnapshot Net → Ip → Bool
  contains_ip snapshot ip = any (λ net. m.contains net ip) snapshot.ip_nets

  abbrev pub matching_patterns : BlocklistSnapshot Net → Text → Option (List Text)
  matching_patterns snapshot url =
      some_if_any (filter (λ pattern. m.is_match pattern url) snapshot.url_patterns)

  -- The rows that do not parse are passed over.
  abbrev pub nets_of : List Entry → List Net
  nets_of rows = filter_map (λ e. m.parse_net e.pattern) rows

  abbrev pub patterns_of : List Entry → List Text
  patterns_of rows = filter m.compiles (map (λ e. e.pattern) rows)

  abbrev pub snapshot_of : Blocklists → BlocklistSnapshot Net
  snapshot_of lists = record {
    ip_nets = nets_of lists.ip_blocklist;
    url_patterns = patterns_of lists.url_blocklist;
  }

  -- `BlocklistState::refresh_from`, up to the installation of what it gives.
  unfoldable pub refresh_from : Blocklists → Result StorageError (BlocklistSnapshot Net)
  refresh_from lists =
      if m.set_compiles (patterns_of lists.url_blocklist)
      then ok (snapshot_of lists)
      else err (invalid_input (codes "compiling url blocklist RegexSet"))

  abbrev pub is_trusted_proxy : List Net → Ip → Bool
  is_trusted_proxy trusted_proxies ip = any (λ net. m.contains net ip) trusted_proxies

  abbrev pub parse_forwarded_ip : Text → Option Ip
  parse_forwarded_ip raw = m.parse_ip (trim_matches 34 (trim raw))

  abbrev pub x_forwarded_for_client_ip : Text → List Net → Option Ip
  x_forwarded_for_client_ip raw trusted_proxies =
      find (λ ip. not (is_trusted_proxy trusted_proxies ip))
        (filter_map parse_forwarded_ip (reverse (split 44 raw)))

  unfoldable pub effective_client_ip : Option Ip → Option Text → SecurityRuntime Net → Ip
  effective_client_ip connect_info forwarded_for runtime =
      let socket_ip = unwrap_or connect_info m.localhost in
      if not runtime.trust_x_forwarded_for
      then socket_ip
      else if not (is_trusted_proxy runtime.trusted_proxies socket_ip)
      then socket_ip
      else unwrap_or
          (and_then_some forwarded_for
            (λ raw. x_forwarded_for_client_ip raw runtime.trusted_proxies))
          socket_ip

  abbrev pub is_health_path : Text → Bool
  is_health_path path =
      any (λ health. text_eq health path) (codes "/healthz" ∷ codes "/readyz" ∷ [])

  -- Whether the layer lets a request through, by its path, the socket's peer and the header.
  unfoldable pub blocklist_layer :
      SecurityRuntime Net → BlocklistSnapshot Net → Text → Option Ip → Option Text → Bool
  blocklist_layer runtime snapshot path connect_info forwarded_for =
      is_health_path path
      || not (contains_ip snapshot (effective_client_ip connect_info forwarded_for runtime))

  abbrev pub url_matches : BlocklistSnapshot Net → List Text → List UrlBlockMatch
  url_matches snapshot [] = []
  url_matches snapshot (url ∷ urls) =
      let rest = url_matches snapshot urls in
      elim (matching_patterns snapshot url) [
        | none ↦ rest
        | some patterns ↦ record { url = url; matched_patterns = patterns } ∷ rest
      ]

  unfoldable pub check_body_against_snapshot :
      Text → BlocklistSnapshot Net → Option (List UrlBlockMatch)
  check_body_against_snapshot body snapshot = elim snapshot.url_patterns [
    | [] ↦ none
    | pattern ∷ patterns ↦ some_if_any (url_matches snapshot (m.find_urls body))
  ]
