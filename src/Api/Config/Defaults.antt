-- ===== src/Api/Config/Defaults.antt =====
-- `Config::defaults` of crates/api/src/config.rs; the numbers 2.0 and 0.5 are a parameter.
use thewiki.Prelude.{ℕ, some, none, true, false, [], ◌∷◌}
use thewiki.Prelude.Text.{codes}
use thewiki.Api.ApprovalScope.{ApprovalScope}
use thewiki.Api.Auth.{closed}
use thewiki.Api.RateLimit.Store.{RateLimitBucketConfig}
use thewiki.Api.Config.{
  Config, sqlite, in_db, in_memory, json, noop, no_one, MediaConfig, SearchConfig, GraphQlConfig,
  CaptchaConfig, SecurityConfig, RenderConfig, ModerationConfig,
}

-- As many tokens a minute as the bucket holds.
abbrev per_minute : ℕ → RateLimitBucketConfig
per_minute quota = record { capacity = quota; refill_tokens = quota; refill_interval_secs = 60 }

abbrev pub default_media : MediaConfig
default_media = record {
  max_upload_bytes = 10485760;
  allowed_content_types =
      codes "image/png"
      ∷ codes "image/jpeg"
      ∷ codes "image/gif"
      ∷ codes "image/webp"
      ∷ codes "image/svg+xml"
      ∷ [];
}

abbrev pub default_search : {F : Type 0} → F → F → SearchConfig F
default_search title_boost talk_boost = record {
  index_path = codes "search";
  commit_interval_ms = 200;
  batch_size = 100;
  title_boost = title_boost;
  talk_boost = talk_boost;
}

abbrev pub default_graphql : GraphQlConfig
default_graphql = record {
  playground_enabled = true;
  introspection_enabled = true;
  persisted_queries_enabled = false;
  max_query_depth = 15;
  max_query_complexity = 1000;
}

abbrev pub default_captcha : CaptchaConfig
default_captcha = record {
  provider = noop;
  site_key = [];
  secret_key = [];
  apply_to_registration = true;
  apply_to_anonymous_edits = false;
}

abbrev pub default_security : SecurityConfig
default_security = record { trust_x_forwarded_for = false; trusted_proxies = [] }

abbrev pub default_render : RenderConfig
default_render = record { template = record { max_recursion_depth = 20 } }

abbrev pub default_moderation : ModerationConfig
default_moderation = record {
  approval = record { require_approval_for = no_one; new_user_threshold_days = 7 };
}

abbrev pub defaults : {F : Type 0} → F → F → Config F
defaults title_boost talk_boost = record {
  server = record {
    bind = codes "0.0.0.0:8080";
    request_timeout = some (codes "30s");
    worker_threads = none;
    serve_frontend = true;
  };
  database = record {
    driver = sqlite;
    url = codes "sqlite://thewiki.db";
    max_connections = 16;
    acquire_timeout_secs = 10;
  };
  storage = record { backend = in_db; media = default_media };
  auth = record {
    anonymous_edits = false;
    registration = closed;
    approval_required_for = ApprovalScope.none;
    session_ttl_hours = 24;
    argon2 = record { memory_kib = 65536; iterations = 3; parallelism = 1 };
  };
  search = default_search title_boost talk_boost;
  rate_limit = record {
    limits = record {
      enabled = true;
      read = per_minute 60;
      write = per_minute 10;
      authenticated_read = some (per_minute 600);
      authenticated_write = some (per_minute 120);
    };
    address = record { trusted_proxies = []; client_ip_header = none };
    backend = in_memory;
  };
  audit_log = record { enabled = true; retention_days = 365 };
  telemetry = record { log_format = json; log_filter = codes "info,thewiki=debug" };
  graphql = default_graphql;
  captcha = default_captcha;
  security = default_security;
  render = default_render;
  moderation = default_moderation;
}
