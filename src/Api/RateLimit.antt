-- ===== src/Api/RateLimit.antt =====
-- `peer_ip` of crates/api/src/rate_limit/key.rs, the address that a request without a session is
-- charged to. An address is a number, and the language's parser of addresses is a parameter. Of a
-- request's headers, what `get` and `to_str` give of each is kept.
pub mod Spoofing
pub mod Store
pub mod Tests
use thewiki.Prelude.{ℕ, Option, some, none, Bool, true, false, not, List, [], ◌∷◌}
use thewiki.Prelude.Lists.{find, any}
use thewiki.Prelude.Tests.{◌==◌, if◌then◌else◌}
use thewiki.Prelude.Text.{Text, trim, drop_while, split}
use mathlib.Core.List.{reverse}

pub data ClientIpHeader : Type 0 where
  x_forwarded_for : ClientIpHeader
  x_real_ip : ClientIpHeader

-- Of the configuration, what the key depends on.
pub record RateLimitConfig : Type 0 where
  pub trusted_proxies : List ℕ
  pub client_ip_header : Option ClientIpHeader

-- The peer's address of `ConnectInfo`, and the headers `x-forwarded-for` and `x-real-ip`.
pub record Request : Type 0 where
  pub connect_info : Option ℕ
  pub forwarded_for : Option Text
  pub real_ip : Option Text

abbrev pub localhost : ℕ
localhost = 0x7F000001

abbrev pub keep {ℓ} : {B : Type ℓ} → Option B → List B → List B
keep none rest = rest
keep (some y) rest = y ∷ rest

abbrev pub filter_map {ℓ κ} : {A : Type ℓ} {B : Type κ} → (A → Option B) → List A → List B
filter_map f [] = []
filter_map f (x ∷ xs) = keep (f x) (filter_map f xs)

abbrev pub trim_matches : ℕ → Text → Text
trim_matches d s =
    let quoted : ℕ → Bool = λ c. c == d in
    reverse (drop_while quoted (reverse (drop_while quoted s)))

abbrev pub and_then_some {ℓ κ} : {A : Type ℓ} {B : Type κ} → Option A → (A → Option B) → Option B
and_then_some none f = none
and_then_some (some a) f = f a

abbrev pub unwrap_or {ℓ} : {A : Type ℓ} → Option A → A → A
unwrap_or none a = a
unwrap_or (some b) a = b

module _ (parse : Text → Option ℕ) where
  unfoldable pub parse_forwarded_ip : Text → Option ℕ
  parse_forwarded_ip raw = parse (trim_matches 34 (trim raw))

  unfoldable pub x_forwarded_for_ip : Text → List ℕ → Option ℕ
  x_forwarded_for_ip raw trusted_proxies =
      find (λ ip. not (any (λ p. p == ip) trusted_proxies))
        (filter_map parse_forwarded_ip (reverse (split 44 raw)))

  abbrev pub forwarded_ip : Request → ClientIpHeader → RateLimitConfig → Option ℕ
  forwarded_ip request x_forwarded_for config =
      and_then_some request.forwarded_for (λ raw. x_forwarded_for_ip raw config.trusted_proxies)
  forwarded_ip request x_real_ip config = and_then_some request.real_ip parse_forwarded_ip

  unfoldable pub peer_ip : Request → RateLimitConfig → ℕ
  peer_ip request config =
      let socket_ip = unwrap_or request.connect_info localhost in
      if not (any (λ p. p == socket_ip) config.trusted_proxies)
      then socket_ip
      else elim config.client_ip_header [
        | none ↦ socket_ip
        | some header ↦ unwrap_or (forwarded_ip request header config) socket_ip
      ]
