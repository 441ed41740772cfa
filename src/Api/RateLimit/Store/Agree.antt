-- ===== src/Api/RateLimit/Store/Agree.antt =====
-- That a look at a bucket of crates/api/src/rate_limit/store/mod.rs tells what a charge will do, and
-- what the layer of middleware.rs makes of it.
use thewiki.Prelude.{◌≡◌, refl, sym, ◌∙◌, ℕ, ◌<◌, some, none, true, inl, inr}
use thewiki.Prelude.Tests.{Bool-cases, Option-cases}
use thewiki.Api.RateLimit.Store.{
  F64, RateLimitKey, BucketKind, RateLimitBucketConfig, RateLimitDecision, allowed, denied, Buckets,
  lookup, refill, fresh, check_at, peek_at, Limits, Method, for_method, anon_bucket, bucket_of,
  anonymous, user, rate_limit_layer,
}
use thewiki.Api.RateLimit.Store.Laws.{Lawful}
use thewiki.Api.RateLimit.Store.Bounds.{decision-cases}
use native.Mathlib.Omega.{arith}

-- The second answer counts if the first is no denial.
abbrev pub unless_denied : RateLimitDecision → RateLimitDecision → RateLimitDecision
unless_denied allowed second = second
unless_denied (denied secs) second = denied secs

module _ {W : Type 0} (f : F64 W) (laws : Lawful f) where
  refill-fresh :
      (bucket : RateLimitBucketConfig) (now : ℕ)
      → refill f (fresh f bucket now) bucket now ≡ fresh f bucket now
  unfolding refill
  refill-fresh bucket now = ground arith

  -- A new bucket has a token.
  check_at-absent :
      (key : RateLimitKey) (kind : BucketKind) (bucket : RateLimitBucketConfig) (now : ℕ)
      (buckets : Buckets f)
      → 0 < bucket.capacity
      → lookup f buckets (key, kind) ≡ none
      → (check_at f key kind bucket now buckets).0 ≡ allowed
  unfolding check_at
  check_at-absent key kind bucket now buckets positive absent =
      let enough : f.le (f.of_u32 1) (f.of_u32 bucket.capacity) ≡ true =
        laws.one_le bucket.capacity ∙ ground arith in
      rw (absent, refill-fresh bucket now, enough) refl

  peek_at-absent :
      (key : RateLimitKey) (kind : BucketKind) (bucket : RateLimitBucketConfig) (now : ℕ)
      (buckets : Buckets f)
      → lookup f buckets (key, kind) ≡ none
      → peek_at f key kind bucket now buckets ≡ allowed
  unfolding peek_at
  peek_at-absent key kind bucket now buckets absent = rw (peek_at, absent) refl

  -- A charge lets through exactly what a look at the same time does, and tells the same wait.
  peek_at-check_at :
      (key : RateLimitKey) (kind : BucketKind) (bucket : RateLimitBucketConfig) (now : ℕ)
      (buckets : Buckets f)
      → 0 < bucket.capacity
      → peek_at f key kind bucket now buckets ≡ (check_at f key kind bucket now buckets).0
  unfolding peek_at check_at
  peek_at-check_at key kind bucket now buckets positive =
      elim (Option-cases (lookup f buckets (key, kind))) [
        | inl e ↦
            peek_at-absent key kind bucket now buckets e
            ∙ sym (check_at-absent key kind bucket now buckets positive e)
        | inr (state, e) ↦
            elim (Bool-cases (f.le (f.of_u32 1) (refill f state bucket now).tokens)) [
              | inl enough ↦ rw (peek_at, e, enough) refl
              | inr few ↦ rw (peek_at, e, few) refl
            ]
      ]

  -- The layer is as strict with an anonymous request as its own bucket and no stricter: if it is enabled
  -- and the capacity is positive, it answers at any one time what charging the bucket of the address
  -- answers, the wait included; to a request of a user it answers what charging the bucket of its
  -- address answers if that denies it, and what charging the user's own bucket answers otherwise.
  pub rate_limit_layer-check_at :
      (limits : Limits) (method : Method) (peer_ip now : ℕ) (buckets : Buckets f)
      → limits.enabled ≡ true
      → 0 < (anon_bucket limits (for_method method)).capacity
      → ((rate_limit_layer f limits method peer_ip none now now buckets).0
          ≡ (check_at f
              (anonymous peer_ip)
              (for_method method)
              (anon_bucket limits (for_method method))
              now
              buckets).0)
        × ((id : ℕ)
            → (rate_limit_layer f limits method peer_ip (some id) now now buckets).0
              ≡ unless_denied
                  (check_at f
                    (anonymous peer_ip)
                    (for_method method)
                    (anon_bucket limits (for_method method))
                    now
                    buckets).0
                  (check_at f
                    (user id)
                    (for_method method)
                    (bucket_of limits (user id) (for_method method))
                    now
                    buckets).0)
  unfolding rate_limit_layer
  rate_limit_layer-check_at limits method peer_ip now buckets on positive =
      let kind = for_method method in
      let looked =
        peek_at-check_at (anonymous peer_ip) kind (anon_bucket limits kind) now buckets positive in
      elim (decision-cases
        (peek_at f (anonymous peer_ip) kind (anon_bucket limits kind) now buckets)) [
          | inl p ↦ rw (on, p, sym looked ∙ p) (refl, λ id. refl)
          | inr (secs, p) ↦ rw (on, p, sym looked ∙ p) (refl, λ id. refl)
        ]
