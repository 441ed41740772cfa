-- ===== src/Api/RateLimit/Tests.antt =====
-- The address of a request through a proxy, with a parser that knows three addresses.
use thewiki.Prelude.{◌≡◌, refl, ℕ, Option, some, none, [], ◌∷◌, ◌++◌}
use thewiki.Prelude.Tests.{if◌then◌else◌}
use thewiki.Prelude.Text.{
  Text, codes, text_eq, trim, trim_start, trim_end, is_whitespace, drop_while,
}
use thewiki.Api.RateLimit.{
  RateLimitConfig, Request, x_forwarded_for, parse_forwarded_ip, x_forwarded_for_ip, peer_ip,
}
use thewiki.Api.RateLimit.Spoofing.{peer_ip-spoofed}

forwarding : Unit {0}
unfolding text_eq trim trim_start trim_end is_whitespace drop_while parse_forwarded_ip
    x_forwarded_for_ip peer_ip
forwarding = tt

abbrev known : Text → Option ℕ
unfolding text_eq
known s =
    if text_eq s (codes "10.0.0.1")
    then some 0x0A000001
    else if text_eq s (codes "198.51.100.7")
    then some 0xC6336407
    else if text_eq s (codes "203.0.113.9")
    then some 0xCB007109
    else none

abbrev behind_proxy : RateLimitConfig
behind_proxy = record { trusted_proxies = 0x0A000001 ∷ []; client_ip_header = some x_forwarded_for }

abbrev proxied : Request
proxied = record {
  connect_info = some 0x0A000001;
  forwarded_for = some (codes "198.51.100.7, 10.0.0.1");
  real_ip = none;
}

past_the_proxy : peer_ip known proxied behind_proxy ≡ 0xC6336407
unfolding forwarding
past_the_proxy = refl

peer_ip-spoofed_example :
    peer_ip known
      (record proxied {
        forwarded_for = some (codes "203.0.113.9" ++ codes ",198.51.100.7, 10.0.0.1");
      })
      behind_proxy
    ≡ peer_ip known proxied behind_proxy
unfolding forwarding
peer_ip-spoofed_example =
    peer_ip-spoofed known proxied behind_proxy (codes "203.0.113.9")
      (codes "198.51.100.7, 10.0.0.1") 0xC6336407 refl refl
