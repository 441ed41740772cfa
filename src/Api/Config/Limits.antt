-- ===== src/Api/Config/Limits.antt =====
-- What a configuration that `validate` of crates/api/src/config.rs accepts keeps to.
use thewiki.Prelude.{
  ◌≡◌, refl, ℕ, ◌<◌, ◌≤◌, Option, some, none, Bool, true, false, List, [], ◌∷◌, ◌++◌,
}
use thewiki.Prelude.Lists.{All}
use thewiki.Prelude.Result.{ok, and_then-ok}
use thewiki.Prelude.Tests.{◌==◌, not_ltb→le}
use thewiki.Prelude.Text.{Text, codes}
use thewiki.Api.RateLimit.Store.{
  RateLimitBucketConfig, Limits, RateLimitKey, BucketKind, read, write, anonymous, user, bucket_of,
  unwrap_or_bucket,
}
use thewiki.Api.Config.{Config}
use thewiki.Api.Config.Validate.{
  Parsers, in_order, bucket_checks, validate_rate_limit_bucket, validate_optional, before_limits,
  after_limits, last_checks, lacks_key, from_read, from_write, from_authenticated_read,
  from_authenticated_write, validate,
}
use native.Mathlib.Omega.{arith}

in_order-All :
    (checks : List (Bool × Text)) → in_order checks ≡ ok tt → All (λ c. c.0 ≡ false) checks
in_order-All [] h = tt
in_order-All ((true, message) ∷ checks) h = cc
in_order-All ((false, message) ∷ checks) h = (refl, in_order-All checks h)

All-suffix : {A : Type 0} (P : A → Type 0) (xs ys : List A) → All P (xs ++ ys) → All P ys
All-suffix P [] ys a = a
All-suffix P (x ∷ xs) ys a = All-suffix P xs ys a.1

positive : (n : ℕ) → (n == 0) ≡ false → 0 < n
positive n h = ground arith

-- A bucket that can be charged and fills again.
pub record Working (bucket : RateLimitBucketConfig) : Type 0 where
  pub holds_tokens : 0 < bucket.capacity
  pub refills : 0 < bucket.refill_tokens
  pub in_time : 0 < bucket.refill_interval_secs

Working-checked :
    (name : Text) (bucket : RateLimitBucketConfig)
    → validate_rate_limit_bucket name bucket ≡ ok tt
    → Working bucket
Working-checked name bucket h =
    let checked = in_order-All (bucket_checks name bucket) h in
    record {
      holds_tokens = positive bucket.capacity checked.0;
      refills = positive bucket.refill_tokens checked.1.0;
      in_time = positive bucket.refill_interval_secs checked.1.1.0;
    }

abbrev WorkingOption : Option RateLimitBucketConfig → Type 0
WorkingOption none = Unit
WorkingOption (some bucket) = Working bucket

WorkingOption-checked :
    (name : Text) (bucket : Option RateLimitBucketConfig)
    → validate_optional name bucket ≡ ok tt
    → WorkingOption bucket
WorkingOption-checked name none h = tt
WorkingOption-checked name (some bucket) h = Working-checked name bucket h

or_else :
    (own : Option RateLimitBucketConfig) (common : RateLimitBucketConfig)
    → WorkingOption own
    → Working common
    → Working (unwrap_or_bucket own common)
or_else none common o c = c
or_else (some bucket) common o c = o

WorkingOption-bucket_of :
    (limits : Limits)
    → Working limits.read
    → Working limits.write
    → WorkingOption limits.authenticated_read
    → WorkingOption limits.authenticated_write
    → (key : RateLimitKey) (kind : BucketKind) → Working (bucket_of limits key kind)
WorkingOption-bucket_of limits r w ar aw (anonymous address) read = r
WorkingOption-bucket_of limits r w ar aw (anonymous address) write = w
WorkingOption-bucket_of limits r w ar aw (user id) read =
    or_else limits.authenticated_read limits.read ar r
WorkingOption-bucket_of limits r w ar aw (user id) write =
    or_else limits.authenticated_write limits.write aw w

-- The numbers of a configuration that the server counts on.
pub record Bounded {F : Type 0} (config : Config F) : Type 0 where
  pub buckets :
      (key : RateLimitKey) (kind : BucketKind)
      → Working (bucket_of config.rate_limit.limits key kind)
  pub memory : 19456 ≤ config.auth.argon2.memory_kib
  pub iterations : 2 ≤ config.auth.argon2.iterations
  pub parallelism : 1 ≤ config.auth.argon2.parallelism
  pub uploads : 0 < config.storage.media.max_upload_bytes
  pub retention : 0 < config.audit_log.retention_days
  pub commits : 0 < config.search.commit_interval_ms
  pub batches : 0 < config.search.batch_size
  pub query_depth : 0 < config.graphql.max_query_depth
  pub complexity : 0 < config.graphql.max_query_complexity
  pub recursion : 0 < config.render.template.max_recursion_depth

-- A configuration that is accepted names, for every client and both kinds of request, a bucket that has
-- room for a token and gets tokens back in finite time, Argon2 parameters at or above the floor, and
-- positive limits on uploads, on the audit log's age, on the indexing, on queries and on templates.
pub validate-Bounded :
    {F : Type 0} (p : Parsers F) (config : Config F) → validate p config ≡ ok tt → Bounded config
unfolding validate
validate-Bounded p config h =
    let limits = config.rate_limit.limits in
    let (_, before, h1) =
      and_then-ok (in_order (before_limits p config)) (λ _. from_read p config) tt h in
    let (_, r, h2) =
      and_then-ok (validate_rate_limit_bucket (codes "rate_limit.read") limits.read)
        (λ _. from_write p config) tt h1 in
    let (_, w, h3) =
      and_then-ok (validate_rate_limit_bucket (codes "rate_limit.write") limits.write)
        (λ _. from_authenticated_read p config) tt h2 in
    let (_, ar, h4) =
      and_then-ok
        (validate_optional (codes "rate_limit.authenticated_read") limits.authenticated_read)
        (λ _. from_authenticated_write p config) tt h3 in
    let (_, aw, after) =
      and_then-ok
        (validate_optional (codes "rate_limit.authenticated_write") limits.authenticated_write)
        (λ _. in_order (after_limits p config)) tt h4 in
    let b = in_order-All (before_limits p config) before in
    let a = in_order-All (after_limits p config) after in
    let last =
      All-suffix (λ c. c.0 ≡ false) (lacks_key config.captcha) (last_checks p config)
        a.1.1.1.1.1.1.1.1.1.1 in
    record {
      buckets =
          WorkingOption-bucket_of limits (Working-checked (codes "rate_limit.read") limits.read r)
            (Working-checked (codes "rate_limit.write") limits.write w)
            (WorkingOption-checked (codes "rate_limit.authenticated_read") limits.authenticated_read
              ar)
            (WorkingOption-checked (codes "rate_limit.authenticated_write")
              limits.authenticated_write aw);
      memory = not_ltb→le config.auth.argon2.memory_kib 19456 b.1.1.0;
      iterations = not_ltb→le config.auth.argon2.iterations 2 b.1.1.1.0;
      parallelism = not_ltb→le config.auth.argon2.parallelism 1 b.1.1.1.1.0;
      uploads = positive config.storage.media.max_upload_bytes b.1.1.1.1.1.1.0;
      retention = positive config.audit_log.retention_days a.1.1.0;
      commits = positive config.search.commit_interval_ms a.1.1.1.1.0;
      batches = positive config.search.batch_size a.1.1.1.1.1.0;
      query_depth = positive config.graphql.max_query_depth a.1.1.1.1.1.1.1.1.0;
      complexity = positive config.graphql.max_query_complexity a.1.1.1.1.1.1.1.1.1.0;
      recursion = positive config.render.template.max_recursion_depth last.1.0;
    }
