-- ===== src/Api/Config/Tests.antt =====
-- The defaults of crates/api/src/config.rs, and what they are checked for.
use thewiki.Prelude.{◌≡◌, refl, ℕ, true, false}
use thewiki.Prelude.Result.{ok, err}
use thewiki.Prelude.Text.{codes, text_eq, trim, trim_start, trim_end, drop_while, is_whitespace}
use thewiki.Api.Config.{Config, hcaptcha}
use thewiki.Api.Config.Defaults.{defaults, default_captcha}
use thewiki.Api.Config.Validate.{Parsers, invalid, validate}
use thewiki.Api.Config.Limits.{Bounded, validate-Bounded}

-- Boosts as numbers of halves.
abbrev halves : Parsers ℕ
halves = record {
  is_finite = λ boost. true;
  is_negative = λ boost. false;
  is_socket_addr = λ text. text_eq text (codes "0.0.0.0:8080");
  is_cidr = λ text. true;
}

configuring : Unit {0}
unfolding text_eq trim trim_start trim_end drop_while is_whitespace validate
configuring = tt

defaults_are_valid : validate halves (defaults 4 1) ≡ ok tt
unfolding configuring
defaults_are_valid = refl

abbrev half_configured : Config ℕ
half_configured = record (defaults 4 1) { captcha = record default_captcha { provider = hcaptcha } }

keyless :
    validate halves half_configured ≡ err (invalid (codes "captcha.site_key must be non-empty"))
unfolding configuring
keyless = refl

validate-Bounded_example : Bounded {F = ℕ} (defaults 4 1)
validate-Bounded_example = validate-Bounded halves (defaults 4 1) defaults_are_valid
