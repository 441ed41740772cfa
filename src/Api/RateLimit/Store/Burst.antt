-- ===== src/Api/RateLimit/Store/Burst.antt =====
-- How many of the requests of one instant crates/api/src/rate_limit/store/mod.rs lets through.
use thewiki.Prelude.{
  ◌≡◌, refl, ap, ◌∙◌, ℕ, zero, suc, ◌<◌, min, none, Bool, true, false, List, [], ◌∷◌, inl, inr,
}
use thewiki.Prelude.Tests.{leb, if◌then◌else◌, Bool-cases}
use thewiki.Api.RateLimit.Store.{
  F64, BucketState, RateLimitBucketConfig, RateLimitDecision, allowed, denied, Slot, eq_slot,
  Buckets, lookup, refill, or_fresh, check_at,
}
use thewiki.Api.RateLimit.Store.Laws.{
  Lawful, eq_slot_path, eq_slot_refl, lookup-store_same, lookup-store_other,
}
use native.Mathlib.Omega.{arith}

abbrev pub is_allowed : RateLimitDecision → Bool
is_allowed allowed = true
is_allowed (denied secs) = false

-- The requests for the slot.
abbrev pub occurrences : Slot → List Slot → ℕ
occurrences slot [] = 0
occurrences slot (request ∷ requests) =
    let rest = occurrences slot requests in if eq_slot request slot then suc rest else rest

module _ {W : Type 0} (f : F64 W) where
  -- Those of the slot's requests that are let through, all made at the same time.
  abbrev pub allowed_count : (Slot → RateLimitBucketConfig) → ℕ → Slot → List Slot → Buckets f → ℕ
  allowed_count config now slot [] buckets = 0
  allowed_count config now slot (request ∷ requests) buckets =
      let checked = check_at f request.0 request.1 (config request) now buckets in
      let rest = allowed_count config now slot requests checked.1 in
      if eq_slot request slot then (if is_allowed checked.0 then suc rest else rest) else rest

  -- The slot has `n` tokens left at the time `now`.
  abbrev pub Left : RateLimitBucketConfig → ℕ → Slot → ℕ → Buckets f → Type 0
  Left bucket now slot n buckets =
      ((or_fresh f (lookup f buckets slot) bucket now).tokens ≡ f.of_u32 n)
      × (leb now (or_fresh f (lookup f buckets slot) bucket now).last_refill ≡ true)

  refill_same :
      (state : BucketState W) (bucket : RateLimitBucketConfig) (now : ℕ)
      → leb now state.last_refill ≡ true
      → refill f state bucket now ≡ state
  unfolding refill
  refill_same state bucket now h = rw h refl

  check_at-other :
      (config : Slot → RateLimitBucketConfig) (now : ℕ) (request slot : Slot) (buckets : Buckets f)
      → eq_slot request slot ≡ false
      → lookup f (check_at f request.0 request.1 (config request) now buckets).1 slot
        ≡ lookup f buckets slot
  unfolding check_at
  check_at-other config now request slot buckets h = lookup-store_other f buckets request slot _ h

  module _ (laws : Lawful f) where
    check_at-some :
        (bucket : RateLimitBucketConfig) (now : ℕ) (slot : Slot) (n : ℕ) (buckets : Buckets f)
        → suc n < 4294967296
        → Left bucket now slot (suc n) buckets
        → (is_allowed (check_at f slot.0 slot.1 bucket now buckets).0 ≡ true)
          × Left bucket now slot n (check_at f slot.0 slot.1 bucket now buckets).1
    unfolding check_at
    check_at-some bucket now slot n buckets small (t, r) =
        let state = or_fresh f (lookup f buckets slot) bucket now in
        let enough : f.le (f.of_u32 1) state.tokens ≡ true =
          ap (f.le (f.of_u32 1)) t ∙ laws.one_le (suc n) ∙ ground arith in
        rw (refill_same state bucket now r, enough)
          (
            refl,
            rw (lookup-store_same f) (ap (λ x. f.sub x (f.of_u32 1)) t ∙ laws.one_less n small, r),
          )

    check_at-none :
        (bucket : RateLimitBucketConfig) (now : ℕ) (slot : Slot) (buckets : Buckets f)
        → Left bucket now slot 0 buckets
        → (is_allowed (check_at f slot.0 slot.1 bucket now buckets).0 ≡ false)
          × Left bucket now slot 0 (check_at f slot.0 slot.1 bucket now buckets).1
    unfolding check_at
    check_at-none bucket now slot buckets (t, r) =
        let state = or_fresh f (lookup f buckets slot) bucket now in
        let few : f.le (f.of_u32 1) state.tokens ≡ false =
          ap (f.le (f.of_u32 1)) t ∙ laws.one_le 0 in
        rw (refill_same state bucket now r, few) (refl, rw (lookup-store_same f) (t, r))

    allowed_count-same :
        (config : Slot → RateLimitBucketConfig) (now : ℕ) (slot : Slot) (requests : List Slot)
        (n : ℕ) (buckets : Buckets f)
        → n < 4294967296
        → Left (config slot) now slot n buckets
        → ((m : ℕ) (after : Buckets f)
            → m < 4294967296
            → Left (config slot) now slot m after
            → allowed_count config now slot requests after ≡ min (occurrences slot requests) m)
        → allowed_count config now slot (slot ∷ requests) buckets
          ≡ min (suc (occurrences slot requests)) n
    allowed_count-same config now slot requests zero buckets small left ih =
        let (refused, after) = check_at-none (config slot) now slot buckets left in
        rw (eq_slot_refl slot, refused, ih 0 _ small after) (ground arith)
    allowed_count-same config now slot requests (suc n) buckets small left ih =
        let (granted, after) = check_at-some (config slot) now slot n buckets small left in
        rw (eq_slot_refl slot, granted, ih n _ (omega arith) after) (ground arith)

    allowed_count-Left :
        (config : Slot → RateLimitBucketConfig) (now : ℕ) (slot : Slot) (requests : List Slot)
        (n : ℕ) (buckets : Buckets f)
        → n < 4294967296
        → Left (config slot) now slot n buckets
        → allowed_count config now slot requests buckets ≡ min (occurrences slot requests) n
    allowed_count-Left config now slot [] n buckets small left = ground arith
    allowed_count-Left config now slot (request ∷ requests) n buckets small left =
        elim (Bool-cases (eq_slot request slot)) [
          | inl e ↦
              ap (λ r. allowed_count config now slot (r ∷ requests) buckets)
                (eq_slot_path request slot e)
              ∙ allowed_count-same config now slot requests n buckets small left
                  (λ m after. allowed_count-Left config now slot requests m after)
              ∙ rw e refl
          | inr e ↦ rw e (
              allowed_count-Left config now slot requests n _ small
                (rw (check_at-other config now request slot buckets e) left))
        ]

    -- Of the requests of one instant, in any order and mixed with those for other keys and the other
    -- kind, the number of those for a key and kind that are let through is the smaller of their number
    -- and the capacity configured for it, if it has no bucket yet and the capacity is a `u32`.
    pub allowed_count-burst :
        (config : Slot → RateLimitBucketConfig) (now : ℕ) (slot : Slot) (requests : List Slot)
        (buckets : Buckets f)
        → (config slot).capacity < 4294967296
        → lookup f buckets slot ≡ none
        → allowed_count config now slot requests buckets
          ≡ min (occurrences slot requests) (config slot).capacity
    allowed_count-burst config now slot requests buckets small absent =
        allowed_count-Left config now slot requests (config slot).capacity buckets small
          (rw absent (refl, ground arith))
