-- ===== src/Api/Config/Validate.antt =====
-- `Config::validate` of crates/api/src/config.rs. An error carries the text before its values; the
-- parsers of socket addresses and of CIDRs are parameters. Warnings are left out.
use thewiki.Prelude.{ℕ, ◌++◌, Option, some, none, Bool, true, false, not, ◌||◌, List, [], ◌∷◌}
use thewiki.Prelude.Lists.{any}
use thewiki.Prelude.Result.{Result, ok, err, and_then}
use thewiki.Prelude.Tests.{◌==◌, ltb}
use thewiki.Prelude.Text.{Text, codes, text_eq, trim}
use thewiki.Api.RateLimit.{ClientIpHeader}
use thewiki.Api.RateLimit.Store.{RateLimitBucketConfig}
use thewiki.Api.Config.{
  Config, StorageBackend, in_db, s3, RateLimitBackendConfig, in_memory, redis, CaptchaConfig, noop,
  hcaptcha,
}

pub data ConfigError : Type 0 where
  invalid : Text → ConfigError

-- The tests on `f32` and the parsers.
pub record Parsers (F : Type 0) : Type 0 where
  pub is_finite : F → Bool
  pub is_negative : F → Bool
  pub is_socket_addr : Text → Bool
  pub is_cidr : Text → Bool

abbrev pub is_empty {ℓ} : {A : Type ℓ} → List A → Bool
is_empty [] = true
is_empty (x ∷ xs) = false

abbrev pub is_blank : Text → Bool
is_blank s = text_eq (trim s) []

-- An early return.
abbrev pub refuse_if : Bool → Text → Result ConfigError (Unit {0})
refuse_if true message = err (invalid message)
refuse_if false message = ok tt

abbrev pub in_order : List (Bool × Text) → Result ConfigError (Unit {0})
in_order [] = ok tt
in_order ((bad, message) ∷ checks) = and_then (refuse_if bad message) (λ _. in_order checks)

abbrev pub bucket_checks : Text → RateLimitBucketConfig → List (Bool × Text)
bucket_checks name bucket =
    (bucket.capacity == 0, name ++ codes ".capacity must be > 0")
    ∷ (bucket.refill_tokens == 0, name ++ codes ".refill_tokens must be > 0")
    ∷ (bucket.refill_interval_secs == 0, name ++ codes ".refill_interval_secs must be > 0")
    ∷ []

abbrev pub validate_rate_limit_bucket : Text → RateLimitBucketConfig → Result ConfigError (Unit {0})
validate_rate_limit_bucket name bucket = in_order (bucket_checks name bucket)

abbrev pub validate_optional : Text → Option RateLimitBucketConfig → Result ConfigError (Unit {0})
validate_optional name none = ok tt
validate_optional name (some bucket) = validate_rate_limit_bucket name bucket

abbrev pub lacks_bucket : StorageBackend → Bool
lacks_bucket in_db = false
lacks_bucket (s3 bucket region endpoint_url) = is_blank bucket || is_blank region

abbrev pub lacks_url : RateLimitBackendConfig → Bool
lacks_url in_memory = false
lacks_url (redis url) = is_blank url

abbrev pub lacks_proxy : Option ClientIpHeader → List ℕ → Bool
lacks_proxy none trusted_proxies = false
lacks_proxy (some header) trusted_proxies = is_empty trusted_proxies

abbrev pub lacks_key : CaptchaConfig → List (Bool × Text)
lacks_key captcha = elim captcha.provider [
  | noop ↦ []
  | hcaptcha ↦
      (is_blank captcha.site_key, codes "captcha.site_key must be non-empty")
      ∷ (is_blank captcha.secret_key, codes "captcha.secret_key must be non-empty")
      ∷ []
]

module _ {F : Type 0} (p : Parsers F) where
  abbrev pub before_limits : Config F → List (Bool × Text)
  before_limits config =
      let argon2 = config.auth.argon2 in
      (is_blank config.database.url, codes "database.url is empty")
      ∷ (
        not (p.is_socket_addr config.server.bind),
        codes "server.bind is not a valid socket address",
      )
      ∷ (ltb argon2.memory_kib 19456, codes "auth.argon2.memory_kib")
      ∷ (ltb argon2.iterations 2, codes "auth.argon2.iterations")
      ∷ (ltb argon2.parallelism 1, codes "auth.argon2.parallelism")
      ∷ (lacks_bucket config.storage.backend, codes "storage.backend = s3")
      ∷ (
        config.storage.media.max_upload_bytes == 0,
        codes "storage.media.max_upload_bytes must be > 0",
      )
      ∷ (
        is_empty config.storage.media.allowed_content_types,
        codes "storage.media.allowed_content_types must list at least one MIME type",
      )
      ∷ []

  abbrev pub bad_boost : F → Bool
  bad_boost boost = not (p.is_finite boost) || p.is_negative boost

  abbrev pub last_checks : Config F → List (Bool × Text)
  last_checks config =
      (
        any (λ cidr. not (p.is_cidr cidr)) config.security.trusted_proxies,
        codes "security.trusted_proxies",
      )
      ∷ (
        config.render.template.max_recursion_depth == 0,
        codes "render.template.max_recursion_depth must be > 0",
      )
      ∷ []

  abbrev pub after_limits : Config F → List (Bool × Text)
  after_limits config =
      let search = config.search in
      (
        lacks_proxy config.rate_limit.address.client_ip_header
            config.rate_limit.address.trusted_proxies,
        codes "rate_limit.client_ip_header requires at least one trusted proxy",
      )
        ∷ (lacks_url config.rate_limit.backend, codes "rate_limit.backend = redis")
        ∷ (config.audit_log.retention_days == 0, codes "audit_log.retention_days must be > 0")
        ∷ (is_empty search.index_path, codes "search.index_path must be non-empty")
        ∷ (search.commit_interval_ms == 0, codes "search.commit_interval_ms must be > 0")
        ∷ (search.batch_size == 0, codes "search.batch_size must be > 0")
        ∷ (bad_boost search.title_boost, codes "search.title_boost")
        ∷ (bad_boost search.talk_boost, codes "search.talk_boost")
        ∷ (config.graphql.max_query_depth == 0, codes "graphql.max_query_depth must be > 0")
        ∷ (
          config.graphql.max_query_complexity == 0,
          codes "graphql.max_query_complexity must be > 0",
        )
        ∷ lacks_key config.captcha
      ++ last_checks config

  -- The checks from one section's on, named by the section.
  abbrev pub from_authenticated_write : Config F → Result ConfigError (Unit {0})
  from_authenticated_write config =
      let limits = config.rate_limit.limits in
      and_then
        (validate_optional (codes "rate_limit.authenticated_write") limits.authenticated_write)
        (λ _. in_order (after_limits config))

  abbrev pub from_authenticated_read : Config F → Result ConfigError (Unit {0})
  from_authenticated_read config =
      let limits = config.rate_limit.limits in
      and_then (validate_optional (codes "rate_limit.authenticated_read") limits.authenticated_read)
        (λ _. from_authenticated_write config)

  abbrev pub from_write : Config F → Result ConfigError (Unit {0})
  from_write config =
      let limits = config.rate_limit.limits in
      and_then (validate_rate_limit_bucket (codes "rate_limit.write") limits.write)
        (λ _. from_authenticated_read config)

  abbrev pub from_read : Config F → Result ConfigError (Unit {0})
  from_read config =
      let limits = config.rate_limit.limits in
      and_then (validate_rate_limit_bucket (codes "rate_limit.read") limits.read)
        (λ _. from_write config)

  unfoldable pub validate : Config F → Result ConfigError (Unit {0})
  validate config = and_then (in_order (before_limits config)) (λ _. from_read config)
