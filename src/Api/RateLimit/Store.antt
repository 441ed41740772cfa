-- ===== src/Api/RateLimit/Store.antt =====
-- The token buckets of crates/api/src/rate_limit/store/mod.rs, as the in-memory store keeps them, and
-- the layer of middleware.rs that charges them. An `f64` is a value of a type with the operations that
-- the code uses; an `Instant` is a number of nanoseconds.
pub mod Laws
pub mod Bounds
pub mod Burst
pub mod Agree
pub mod Tests
use thewiki.Prelude.{
  ℕ, ◌+◌, ◌-◌, ◌*◌, max, Option, some, none, Bool, true, false, not, ◌&&◌, ◌||◌, List, [], ◌∷◌,
}
use thewiki.Prelude.Tests.{◌==◌, leb, ltb, if◌then◌else◌}
use thewiki.Storage.Tables.{filter}

pub record F64 (W : Type 0) : Type 0 where
  pub of_u32 : ℕ → W
  -- `Duration::as_secs_f64`, of nanoseconds
  pub as_secs : ℕ → W
  pub add : W → W → W
  pub sub : W → W → W
  pub mul : W → W → W
  pub div : W → W → W
  pub lower : W → W → W
  pub upper : W → W → W
  pub ceil : W → W
  pub le : W → W → Bool
  pub is_finite : W → Bool
  -- `as u64`
  pub to_u64 : W → ℕ

pub data RateLimitKey : Type 0 where
  anonymous : ℕ → RateLimitKey
  user : ℕ → RateLimitKey

pub data BucketKind : Type 0 where
  read : BucketKind
  write : BucketKind

pub data Method : Type 0 where
  get : Method
  head : Method
  options : Method
  other_method : Method

abbrev pub for_method : Method → BucketKind
for_method get = read
for_method head = read
for_method options = read
for_method other_method = write

pub record RateLimitBucketConfig : Type 0 where
  pub capacity : ℕ
  pub refill_tokens : ℕ
  pub refill_interval_secs : ℕ

-- `retry_after` in seconds
pub data RateLimitDecision : Type 0 where
  allowed : RateLimitDecision
  denied : ℕ → RateLimitDecision

pub record BucketState (W : Type 0) : Type 0 where
  pub tokens : W
  pub last_refill : ℕ
  pub last_seen : ℕ

abbrev pub nanos_per_sec : ℕ
nanos_per_sec = 1000000000

abbrev pub gc_idle_window : ℕ
gc_idle_window = 10 * 60 * nanos_per_sec

abbrev pub eq_key : RateLimitKey → RateLimitKey → Bool
eq_key (anonymous a) (anonymous b) = a == b
eq_key (anonymous a) (user b) = false
eq_key (user a) (anonymous b) = false
eq_key (user a) (user b) = a == b

abbrev pub eq_kind : BucketKind → BucketKind → Bool
eq_kind read read = true
eq_kind read write = false
eq_kind write read = false
eq_kind write write = true

-- The key of the map
abbrev pub Slot : Type 0
Slot = RateLimitKey × BucketKind

abbrev pub eq_slot : Slot → Slot → Bool
eq_slot a b = eq_key a.0 b.0 && eq_kind a.1 b.1

module _ {W : Type 0} (f : F64 W) where
  abbrev pub Buckets : Type 0
  Buckets = List (Slot × BucketState W)

  abbrev pub lookup : Buckets → Slot → Option (BucketState W)
  lookup [] slot = none
  lookup (entry ∷ rest) slot =
      let found = lookup rest slot in if eq_slot entry.0 slot then some entry.1 else found

  abbrev pub store : Buckets → Slot → BucketState W → Buckets
  store [] slot state = (slot, state) ∷ []
  store (entry ∷ rest) slot state =
      let stored = store rest slot state in
      if eq_slot entry.0 slot then (slot, state) ∷ rest else entry ∷ stored

  unfoldable pub refill : BucketState W → RateLimitBucketConfig → ℕ → BucketState W
  refill state bucket now =
      if leb now state.last_refill
      then state
      else let elapsed = f.as_secs (now - state.last_refill) in
        let interval = f.as_secs (bucket.refill_interval_secs * nanos_per_sec) in
        if f.le interval (f.of_u32 0)
        then record state { last_refill = now }
        else let refill_rate = f.div (f.of_u32 bucket.refill_tokens) interval in
          record state {
            tokens =
                f.lower (f.of_u32 bucket.capacity) (f.add state.tokens (f.mul elapsed refill_rate));
            last_refill = now;
          }

  unfoldable pub retry_after : W → RateLimitBucketConfig → ℕ
  retry_after tokens bucket =
      let interval = f.as_secs (bucket.refill_interval_secs * nanos_per_sec) in
      let refill_rate = f.div (f.of_u32 bucket.refill_tokens) interval in
      if f.le refill_rate (f.of_u32 0) || not (f.is_finite refill_rate)
      then max bucket.refill_interval_secs 1
      else let raw =
          f.ceil (f.div (f.upper (f.sub (f.of_u32 1) tokens) (f.of_u32 0)) refill_rate) in
        if f.is_finite raw && f.le (f.of_u32 0) raw then max (f.to_u64 raw) 1 else 1

  abbrev pub fresh : RateLimitBucketConfig → ℕ → BucketState W
  fresh bucket now = record {
    tokens = f.of_u32 bucket.capacity;
    last_refill = now;
    last_seen = now;
  }

  abbrev pub or_fresh : Option (BucketState W) → RateLimitBucketConfig → ℕ → BucketState W
  or_fresh none bucket now = fresh bucket now
  or_fresh (some state) bucket now = state

  -- A token for this request, if there is one.
  abbrev pub take_token : BucketState W → RateLimitBucketConfig → RateLimitDecision × BucketState W
  take_token state bucket =
      if f.le (f.of_u32 1) state.tokens
      then (allowed, record state { tokens = f.sub state.tokens (f.of_u32 1) })
      else (denied (retry_after state.tokens bucket), state)

  unfoldable pub check_at :
      RateLimitKey → BucketKind → RateLimitBucketConfig → ℕ → Buckets → RateLimitDecision × Buckets
  check_at key kind bucket now buckets =
      let refilled = refill (or_fresh (lookup buckets (key, kind)) bucket now) bucket now in
      let taken = take_token (record refilled { last_seen = now }) bucket in
      (taken.0, store buckets (key, kind) taken.1)

  unfoldable pub peek_at :
      RateLimitKey → BucketKind → RateLimitBucketConfig → ℕ → Buckets → RateLimitDecision
  peek_at key kind bucket now buckets = elim (lookup buckets (key, kind)) [
    | none ↦ allowed
    | some state ↦
        let snapshot = refill state bucket now in
        if f.le (f.of_u32 1) snapshot.tokens
        then allowed
        else denied (retry_after snapshot.tokens bucket)
  ]

  abbrev pub is_live : ℕ → BucketState W → Bool
  is_live now state = leb now state.last_seen || ltb (now - state.last_seen) gc_idle_window

  unfoldable pub prune_idle : ℕ → Buckets → Buckets
  prune_idle now buckets = filter (λ entry. is_live now entry.1) buckets

pub record Limits : Type 0 where
  pub enabled : Bool
  pub read : RateLimitBucketConfig
  pub write : RateLimitBucketConfig
  pub authenticated_read : Option RateLimitBucketConfig
  pub authenticated_write : Option RateLimitBucketConfig

abbrev pub unwrap_or_bucket :
    Option RateLimitBucketConfig → RateLimitBucketConfig → RateLimitBucketConfig
unwrap_or_bucket none bucket = bucket
unwrap_or_bucket (some own) bucket = own

abbrev pub anon_bucket : Limits → BucketKind → RateLimitBucketConfig
anon_bucket limits read = limits.read
anon_bucket limits write = limits.write

abbrev pub bucket_of : Limits → RateLimitKey → BucketKind → RateLimitBucketConfig
bucket_of limits (user id) read = unwrap_or_bucket limits.authenticated_read limits.read
bucket_of limits (user id) write = unwrap_or_bucket limits.authenticated_write limits.write
bucket_of limits (anonymous ip) kind = anon_bucket limits kind

-- The key that `resolve_key` gives, from the user of the session if there is a valid one.
abbrev pub resolve_key : Option ℕ → ℕ → RateLimitKey
resolve_key none peer_ip = anonymous peer_ip
resolve_key (some user_id) peer_ip = user user_id

-- Whether the request is run or answered with 429. The store is the in-memory one, which never fails;
-- the two looks at the clock are two times.
unfoldable pub rate_limit_layer :
    {W : Type 0} (f : F64 W)
    → Limits
    → Method
    → ℕ
    → Option ℕ
    → ℕ
    → ℕ
    → Buckets f
    → RateLimitDecision × Buckets f
rate_limit_layer f limits method peer_ip session now later buckets =
    if not limits.enabled
    then (allowed, buckets)
    else let kind = for_method method in
      elim (peek_at f (anonymous peer_ip) kind (anon_bucket limits kind) now buckets) [
        | denied secs ↦ (denied secs, buckets)
        | allowed ↦
            let key = resolve_key session peer_ip in
            check_at f key kind (bucket_of limits key kind) later buckets
      ]
