-- ===== src/Api/RateLimit/Store/Bounds.antt =====
-- The bounds of the buckets of crates/api/src/rate_limit/store/mod.rs, whatever the traffic.
use thewiki.Prelude.{◌≡◌, refl, subst, ℕ, ◌-◌, ◌*◌, Option, true, List, [], ◌∷◌, inl, inr, ◌⊎◌}
use thewiki.Prelude.Lists.{All}
use thewiki.Storage.Pagination.Ordered.{All-filter}
use thewiki.Prelude.Tests.{leb, if-either, Bool-cases}
use thewiki.Api.RateLimit.Store.{
  F64, BucketState, RateLimitBucketConfig, RateLimitDecision, allowed, denied, Slot, eq_slot,
  Buckets, lookup, store, refill, or_fresh, take_token, check_at, peek_at, prune_idle, is_live,
  Limits, Method, for_method, RateLimitKey, anonymous, BucketKind, anon_bucket, bucket_of,
  resolve_key, rate_limit_layer, nanos_per_sec,
}
use thewiki.Api.RateLimit.Store.Laws.{Lawful, eq_slot_path}

pub decision-cases : (d : RateLimitDecision) → (d ≡ allowed) ⊎ ((secs : ℕ) × (d ≡ denied secs))
decision-cases allowed = inl refl
decision-cases (denied secs) = inr (secs, refl)

module _ {W : Type 0} (f : F64 W) (laws : Lawful f) where
  -- No token count is below nothing or above the capacity.
  abbrev pub Within : RateLimitBucketConfig → BucketState W → Type 0
  Within bucket state =
      (f.le (f.of_u32 0) state.tokens ≡ true)
      × (f.le state.tokens (f.of_u32 bucket.capacity) ≡ true)

  refill-Within :
      (bucket : RateLimitBucketConfig) (state : BucketState W) (now : ℕ)
      → Within bucket state
      → Within bucket (refill f state bucket now)
  unfolding refill
  refill-Within bucket state now h = elim (Bool-cases (leb now state.last_refill)) [
    | inl e ↦ rw e h
    | inr e ↦
        elim (Bool-cases
          (f.le (f.as_secs (bucket.refill_interval_secs * nanos_per_sec)) (f.of_u32 0))) [
            | inl i ↦ rw (e, i) h
            | inr i ↦
                rw (e, i)
                  (
                    laws.lower_nonneg bucket.capacity state.tokens
                        (f.as_secs (now - state.last_refill))
                        (f.div (f.of_u32 bucket.refill_tokens)
                          (f.as_secs (bucket.refill_interval_secs * nanos_per_sec)))
                        h.0 (laws.secs_nonneg (now - state.last_refill))
                        (laws.rate_nonneg bucket.refill_tokens
                          (bucket.refill_interval_secs * nanos_per_sec) i),
                    laws.lower_le bucket.capacity _,
                  )
          ]
  ]

  take_token-Within :
      (bucket : RateLimitBucketConfig) (state : BucketState W)
      → Within bucket state
      → Within bucket (take_token f state bucket).1
  take_token-Within bucket state h = elim (Bool-cases (f.le (f.of_u32 1) state.tokens)) [
    | inl e ↦ rw e (laws.less_nonneg state.tokens e, laws.less_le bucket.capacity state.tokens h.1)
    | inr e ↦ rw e h
  ]

  abbrev pub AllWithin : (Slot → RateLimitBucketConfig) → Buckets f → Type 0
  AllWithin config buckets = All (λ entry. Within (config entry.0) entry.1) buckets

  or_fresh-Within :
      (config : Slot → RateLimitBucketConfig) (buckets : Buckets f) (slot : Slot) (now : ℕ)
      → AllWithin config buckets
      → Within (config slot) (or_fresh f (lookup f buckets slot) (config slot) now)
  or_fresh-Within config [] slot now h =
      (laws.of_nonneg (config slot).capacity, laws.of_refl (config slot).capacity)
  or_fresh-Within config (entry ∷ rest) slot now h = elim (Bool-cases (eq_slot entry.0 slot)) [
    | inl e ↦ rw e (subst (λ s. Within (config s) entry.1) (eq_slot_path entry.0 slot e) h.0)
    | inr e ↦ rw e (or_fresh-Within config rest slot now h.1)
  ]

  store-Within :
      (config : Slot → RateLimitBucketConfig) (buckets : Buckets f) (slot : Slot)
      (state : BucketState W)
      → AllWithin config buckets
      → Within (config slot) state
      → AllWithin config (store f buckets slot state)
  store-Within config [] slot state h w = (w, tt)
  store-Within config (entry ∷ rest) slot state h w =
      if-either (AllWithin config) (eq_slot entry.0 slot) ((slot, state) ∷ rest)
        (entry ∷ store f rest slot state) (w, h.1) (h.0, store-Within config rest slot state h.1 w)

  check_at-Within :
      (config : Slot → RateLimitBucketConfig) (key : RateLimitKey) (kind : BucketKind) (now : ℕ)
      (buckets : Buckets f)
      → AllWithin config buckets
      → AllWithin config (check_at f key kind (config (key, kind)) now buckets).1
  unfolding check_at
  check_at-Within config key kind now buckets h =
      let bucket = config (key, kind) in
      let refilled = refill f (or_fresh f (lookup f buckets (key, kind)) bucket now) bucket now in
      store-Within config buckets (key, kind)
        (take_token f (record refilled { last_seen = now }) bucket).1 h
        (take_token-Within bucket (record refilled { last_seen = now })
          (refill-Within bucket (or_fresh f (lookup f buckets (key, kind)) bucket now) now
            (or_fresh-Within config buckets (key, kind) now h)))

  rate_limit_layer-Within :
      (limits : Limits) (method : Method) (peer_ip : ℕ) (session : Option ℕ) (now later : ℕ)
      (buckets : Buckets f)
      → AllWithin (λ slot. bucket_of limits slot.0 slot.1) buckets
      → AllWithin
          (λ slot. bucket_of limits slot.0 slot.1)
          (rate_limit_layer f limits method peer_ip session now later buckets).1
  unfolding rate_limit_layer
  rate_limit_layer-Within limits method peer_ip session now later buckets h =
      elim (Bool-cases limits.enabled) [
        | inr e ↦ rw e h
        | inl e ↦
            elim (decision-cases (
              peek_at f (anonymous peer_ip) (for_method method)
                (anon_bucket limits (for_method method)) now buckets)) [
                  | inl p ↦
                      rw (e, p)
                        (check_at-Within (λ slot. bucket_of limits slot.0 slot.1)
                          (resolve_key session peer_ip) (for_method method) later buckets h)
                  | inr (secs, p) ↦ rw (e, p) h
                ]
      ]

-- What happens to the store: a request comes through the layer, or the sweep runs.
pub data Event : Type 0 where
  arrives : Method → ℕ → Option ℕ → ℕ → ℕ → Event
  sweeps : ℕ → Event

abbrev pub on_event : {W : Type 0} (f : F64 W) → Limits → Event → Buckets f → Buckets f
on_event f limits (arrives method peer_ip session now later) buckets =
    (rate_limit_layer f limits method peer_ip session now later buckets).1
on_event f limits (sweeps now) buckets = prune_idle f now buckets

abbrev pub on_events : {W : Type 0} (f : F64 W) → Limits → List Event → Buckets f → Buckets f
on_events f limits [] buckets = buckets
on_events f limits (event ∷ events) buckets =
    on_events f limits events (on_event f limits event buckets)

on_event-Within :
    {W : Type 0} (f : F64 W) (laws : Lawful f) (limits : Limits) (event : Event)
    (buckets : Buckets f)
    → AllWithin f laws (λ slot. bucket_of limits slot.0 slot.1) buckets
    → AllWithin f laws (λ slot. bucket_of limits slot.0 slot.1) (on_event f limits event buckets)
unfolding prune_idle
on_event-Within f laws limits (arrives method peer_ip session now later) buckets h =
    rate_limit_layer-Within f laws limits method peer_ip session now later buckets h
on_event-Within f laws limits (sweeps now) buckets h =
    All-filter _ (λ entry. is_live f now entry.1) buckets h

-- If no bucket holds less than no token or more than the capacity that is configured for its key and
-- kind, as in the empty store, then none does after any requests through the layer and any sweeps,
-- whatever the clock shows at each.
pub on_events-Within :
    {W : Type 0} (f : F64 W) (laws : Lawful f) (limits : Limits) (events : List Event)
    (buckets : Buckets f)
    → AllWithin f laws (λ slot. bucket_of limits slot.0 slot.1) buckets
    → AllWithin f laws (λ slot. bucket_of limits slot.0 slot.1) (on_events f limits events buckets)
on_events-Within f laws limits [] buckets h = h
on_events-Within f laws limits (event ∷ events) buckets h =
    on_events-Within f laws limits events (on_event f limits event buckets)
      (on_event-Within f laws limits event buckets h)
