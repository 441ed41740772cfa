-- ===== src/Api/Config.antt =====
-- The configuration of crates/api/src/config.rs: its sections, its defaults in Defaults, `validate` in
-- Validate. Reading it from a file and the environment is the crate `figment`'s. `f32` is a parameter,
-- and a path is its text.
pub mod Defaults
pub mod Validate
pub mod Limits
pub mod Tests
use thewiki.Prelude.{ℕ, Option, Bool, List}
use thewiki.Prelude.Text.{Text}
use thewiki.Api.ApprovalScope.{ApprovalScope, none, anonymous, new_users, all}
use thewiki.Api.Auth.{RegistrationPolicy}
use thewiki.Api.RateLimit.{RateLimitConfig}
use thewiki.Api.RateLimit.Store.{Limits as RateLimits}

pub record ServerConfig : Type 0 where
  pub bind : Text
  pub request_timeout : Option Text
  pub worker_threads : Option ℕ
  pub serve_frontend : Bool

pub data DatabaseDriver : Type 0 where
  sqlite : DatabaseDriver
  postgres : DatabaseDriver

pub record DatabaseConfig : Type 0 where
  pub driver : DatabaseDriver
  pub url : Text
  pub max_connections : ℕ
  pub acquire_timeout_secs : ℕ

pub record MediaConfig : Type 0 where
  pub max_upload_bytes : ℕ
  pub allowed_content_types : List Text

pub data StorageBackend : Type 0 where
  in_db : StorageBackend
  s3 : (bucket region : Text) (endpoint_url : Option Text) → StorageBackend

pub record StorageConfig : Type 0 where
  pub backend : StorageBackend
  pub media : MediaConfig

pub record Argon2Config : Type 0 where
  pub memory_kib : ℕ
  pub iterations : ℕ
  pub parallelism : ℕ

pub record AuthConfig : Type 0 where
  pub anonymous_edits : Bool
  pub registration : RegistrationPolicy
  pub approval_required_for : ApprovalScope
  pub session_ttl_hours : ℕ
  pub argon2 : Argon2Config

pub record SearchConfig (F : Type 0) : Type 0 where
  pub index_path : Text
  pub commit_interval_ms : ℕ
  pub batch_size : ℕ
  pub title_boost : F
  pub talk_boost : F

pub data RateLimitBackendConfig : Type 0 where
  in_memory : RateLimitBackendConfig
  redis : (url : Text) → RateLimitBackendConfig

-- `RateLimitConfig`: the buckets, what the client's address depends on, the backend.
pub record RateLimitSection : Type 0 where
  pub limits : RateLimits
  pub address : RateLimitConfig
  pub backend : RateLimitBackendConfig

pub record AuditLogConfig : Type 0 where
  pub enabled : Bool
  pub retention_days : ℕ

pub data LogFormat : Type 0 where
  json : LogFormat
  pretty : LogFormat

pub record TelemetryConfig : Type 0 where
  pub log_format : LogFormat
  pub log_filter : Text

pub record GraphQlConfig : Type 0 where
  pub playground_enabled : Bool
  pub introspection_enabled : Bool
  pub persisted_queries_enabled : Bool
  pub max_query_depth : ℕ
  pub max_query_complexity : ℕ

pub data CaptchaProviderKind : Type 0 where
  noop : CaptchaProviderKind
  hcaptcha : CaptchaProviderKind

pub record CaptchaConfig : Type 0 where
  pub provider : CaptchaProviderKind
  pub site_key : Text
  pub secret_key : Text
  pub apply_to_registration : Bool
  pub apply_to_anonymous_edits : Bool

pub record SecurityConfig : Type 0 where
  pub trust_x_forwarded_for : Bool
  pub trusted_proxies : List Text

pub record TemplateConfig : Type 0 where
  pub max_recursion_depth : ℕ

pub record RenderConfig : Type 0 where
  pub template : TemplateConfig

pub data ApprovalRequirement : Type 0 where
  no_one : ApprovalRequirement
  anon : ApprovalRequirement
  anon_and_new_users : ApprovalRequirement
  everyone : ApprovalRequirement

pub record ApprovalConfig : Type 0 where
  pub require_approval_for : ApprovalRequirement
  pub new_user_threshold_days : ℕ

pub record ModerationConfig : Type 0 where
  pub approval : ApprovalConfig

pub record Config (F : Type 0) : Type 0 where
  pub server : ServerConfig
  pub database : DatabaseConfig
  pub storage : StorageConfig
  pub auth : AuthConfig
  pub search : SearchConfig F
  pub rate_limit : RateLimitSection
  pub audit_log : AuditLogConfig
  pub telemetry : TelemetryConfig
  pub graphql : GraphQlConfig
  pub captcha : CaptchaConfig
  pub security : SecurityConfig
  pub render : RenderConfig
  pub moderation : ModerationConfig

abbrev pub into_scope : ApprovalRequirement → ApprovalScope
into_scope no_one = none
into_scope anon = anonymous
into_scope anon_and_new_users = new_users
into_scope everyone = all

-- Without a requirement of the newer section the older one's counts.
abbrev pub or_legacy : ApprovalScope → ApprovalScope → ApprovalScope
or_legacy none legacy = legacy
or_legacy anonymous legacy = anonymous
or_legacy new_users legacy = new_users
or_legacy all legacy = all

pub record EffectiveApprovalPolicy : Type 0 where
  pub scope : ApprovalScope
  pub new_user_threshold_days : ℕ

abbrev pub effective_approval_policy : {F : Type 0} → Config F → EffectiveApprovalPolicy
effective_approval_policy config = record {
  scope =
      or_legacy (into_scope config.moderation.approval.require_approval_for)
        config.auth.approval_required_for;
  new_user_threshold_days = config.moderation.approval.new_user_threshold_days;
}
