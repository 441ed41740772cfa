-- ===== src/Api/RateLimit/Store/Tests.antt =====
-- The limiter with whole numbers, after the tests of crates/api/src/rate_limit/store/mod.rs.
use thewiki.Prelude.{◌≡◌, refl, ℕ, true, none, some, [], ◌∷◌, ◌+◌}
use thewiki.Api.RateLimit.Store.{
  RateLimitBucketConfig, Limits, anonymous, user, read, write, get, other_method, allowed, denied,
  refill, retry_after, check_at, peek_at, prune_idle, rate_limit_layer, bucket_of, nanos_per_sec,
}
use thewiki.Api.RateLimit.Store.Laws.{whole, whole-Lawful}
use thewiki.Api.RateLimit.Store.Bounds.{AllWithin, arrives, sweeps, on_events, on_events-Within}
use thewiki.Api.RateLimit.Store.Burst.{allowed_count, allowed_count-burst}
use thewiki.Api.RateLimit.Store.Agree.{unless_denied, rate_limit_layer-check_at}
use native.Mathlib.Omega.{arith}

limiting : Unit {0}
unfolding refill retry_after check_at peek_at prune_idle rate_limit_layer
limiting = tt

abbrev small_bucket : RateLimitBucketConfig
small_bucket = record { capacity = 3; refill_tokens = 1; refill_interval_secs = 1 }

abbrev limits : Limits
limits = record {
  enabled = true;
  read = small_bucket;
  write = record small_bucket { capacity = 1 };
  authenticated_read = some (record small_bucket { capacity = 5 });
  authenticated_write = none;
}

capacity_consumed :
    (check_at whole
      (anonymous 9)
      write
      limits.write
      7
      (check_at whole (anonymous 9) write limits.write 7 []).1).0
    ≡ denied 1
unfolding limiting
capacity_consumed = refl

refilled :
    (check_at whole
      (anonymous 9)
      write
      limits.write
      (7 + nanos_per_sec)
      (check_at whole (anonymous 9) write limits.write 7 []).1).0
    ≡ allowed
unfolding limiting
refilled = refl

on_events-Within_example :
    AllWithin whole whole-Lawful
      (λ slot. bucket_of limits slot.0 slot.1)
      (on_events whole limits
        (arrives get 9 none 7 7 ∷ arrives other_method 9 (some 4) 8 8 ∷ sweeps 700000000000 ∷ [])
        [])
on_events-Within_example =
    on_events-Within whole whole-Lawful limits
      (arrives get 9 none 7 7 ∷ arrives other_method 9 (some 4) 8 8 ∷ sweeps 700000000000 ∷ []) []
      tt

allowed_count-burst_example :
    allowed_count whole
      (λ slot. bucket_of limits slot.0 slot.1)
      7
      (anonymous 9, write)
      ((anonymous 9, write) ∷ (user 4, write) ∷ (anonymous 9, read) ∷ (anonymous 9, write) ∷ [])
      []
    ≡ 1
allowed_count-burst_example =
    allowed_count-burst whole whole-Lawful (λ slot. bucket_of limits slot.0 slot.1) 7
      (anonymous 9, write)
      ((anonymous 9, write) ∷ (user 4, write) ∷ (anonymous 9, read) ∷ (anonymous 9, write) ∷ []) []
      (omega arith) refl

rate_limit_layer-check_at_example :
    ((rate_limit_layer whole limits get 9 none 7 7 []).0
      ≡ (check_at whole (anonymous 9) read small_bucket 7 []).0)
    × ((id : ℕ)
        → (rate_limit_layer whole limits get 9 (some id) 7 7 []).0
          ≡ unless_denied
              (check_at whole (anonymous 9) read small_bucket 7 []).0
              (check_at whole (user id) read (bucket_of limits (user id) read) 7 []).0)
rate_limit_layer-check_at_example =
    rate_limit_layer-check_at whole whole-Lawful limits get 9 7 [] refl (omega arith)
