-- ===== src/Api/RateLimit/Store/Laws.antt =====
-- What the limiter of crates/api/src/rate_limit/store/mod.rs relies on of `f64`, and the map's lookups.
use thewiki.Prelude.{
  ◌≡◌, refl, ap, ℕ, suc, ◌+◌, ◌-◌, ◌*◌, ◌/◌, ◌<◌, min, max, some, true, false, [], ◌∷◌, inl, inr,
}
use thewiki.Prelude.Tests.{==_iff, ==_refl, leb, Bool-cases}
use thewiki.Api.RateLimit.Store.{
  F64, BucketState, anonymous, user, read, write, Slot, eq_slot, Buckets, lookup, store,
  nanos_per_sec,
}
use native.Mathlib.Omega.{arith}

-- `le` is `<=`. A sum or a product may be no number; `lower`, which is `f64::min`, then gives the other
-- argument. The whole numbers of a `u32` are exact.
pub record Lawful {W : Type 0} (f : F64 W) : Type 0 where
  pub of_nonneg : (n : ℕ) → f.le (f.of_u32 0) (f.of_u32 n) ≡ true
  pub of_refl : (n : ℕ) → f.le (f.of_u32 n) (f.of_u32 n) ≡ true
  pub one_le : (n : ℕ) → f.le (f.of_u32 1) (f.of_u32 n) ≡ leb 1 n
  pub one_less : (n : ℕ) → suc n < 4294967296 → f.sub (f.of_u32 (suc n)) (f.of_u32 1) ≡ f.of_u32 n
  pub secs_nonneg : (d : ℕ) → f.le (f.of_u32 0) (f.as_secs d) ≡ true
  pub lower_le : (n : ℕ) (x : W) → f.le (f.lower (f.of_u32 n) x) (f.of_u32 n) ≡ true
  pub lower_nonneg :
      (n : ℕ) (x e r : W)
      → f.le (f.of_u32 0) x ≡ true
      → f.le (f.of_u32 0) e ≡ true
      → f.le (f.of_u32 0) r ≡ true
      → f.le (f.of_u32 0) (f.lower (f.of_u32 n) (f.add x (f.mul e r))) ≡ true
  pub rate_nonneg :
      (n d : ℕ)
      → f.le (f.as_secs d) (f.of_u32 0) ≡ false
      → f.le (f.of_u32 0) (f.div (f.of_u32 n) (f.as_secs d)) ≡ true
  pub less_nonneg :
      (x : W) → f.le (f.of_u32 1) x ≡ true → f.le (f.of_u32 0) (f.sub x (f.of_u32 1)) ≡ true
  pub less_le :
      (n : ℕ) (x : W) → f.le x (f.of_u32 n) ≡ true → f.le (f.sub x (f.of_u32 1)) (f.of_u32 n) ≡ true

-- The laws can be met: whole numbers, rounded down.
abbrev pub whole : F64 ℕ
whole = record {
  of_u32 = λ n. n;
  as_secs = λ d. d / nanos_per_sec;
  add = λ a b. a + b;
  sub = λ a b. a - b;
  mul = λ a b. a * b;
  div = λ a b. a / b;
  lower = min;
  upper = max;
  ceil = λ a. a;
  le = leb;
  is_finite = λ a. true;
  to_u64 = λ a. a;
}

pub whole-Lawful : Lawful whole
whole-Lawful = record {
  of_nonneg = λ n. ground arith;
  of_refl = λ n. ground arith;
  one_le = λ n. refl;
  one_less = λ n h. omega arith;
  secs_nonneg = λ d. ground arith;
  lower_le = λ n x. ground arith;
  lower_nonneg = λ n x e r hx he hr. ground arith;
  rate_nonneg = λ n d h. ground arith;
  less_nonneg = λ x h. ground arith;
  less_le = λ n x h. ground arith;
}

pub eq_slot_refl : (a : Slot) → eq_slot a a ≡ true
eq_slot_refl (anonymous a, read) = ground (arith, ==_refl a)
eq_slot_refl (anonymous a, write) = ground (arith, ==_refl a)
eq_slot_refl (user a, read) = ground (arith, ==_refl a)
eq_slot_refl (user a, write) = ground (arith, ==_refl a)

pub eq_slot_path : (a b : Slot) → eq_slot a b ≡ true → a ≡ b
eq_slot_path (anonymous a, read) (anonymous b, read) h =
    ap (λ n. (anonymous n, read)) ((==_iff a b).0 (ground arith))
eq_slot_path (anonymous a, write) (anonymous b, write) h =
    ap (λ n. (anonymous n, write)) ((==_iff a b).0 (ground arith))
eq_slot_path (user a, read) (user b, read) h =
    ap (λ n. (user n, read)) ((==_iff a b).0 (ground arith))
eq_slot_path (user a, write) (user b, write) h =
    ap (λ n. (user n, write)) ((==_iff a b).0 (ground arith))
eq_slot_path (anonymous a, read) (anonymous b, write) h = ground arith
eq_slot_path (anonymous a, write) (anonymous b, read) h = ground arith
eq_slot_path (user a, read) (user b, write) h = ground arith
eq_slot_path (user a, write) (user b, read) h = ground arith
eq_slot_path (anonymous a, k) (user b, l) h = cc
eq_slot_path (user a, k) (anonymous b, l) h = cc

module _ {W : Type 0} (f : F64 W) where
  pub lookup-store_same :
      (buckets : Buckets f) (slot : Slot) (state : BucketState W)
      → lookup f (store f buckets slot state) slot ≡ some state
  lookup-store_same [] slot state = rw (eq_slot_refl slot) refl
  lookup-store_same (entry ∷ rest) slot state = elim (Bool-cases (eq_slot entry.0 slot)) [
    | inl e ↦ rw (e, eq_slot_refl slot) refl
    | inr e ↦ rw (e, e) (lookup-store_same rest slot state)
  ]

  pub lookup-store_other :
      (buckets : Buckets f) (slot other : Slot) (state : BucketState W)
      → eq_slot slot other ≡ false
      → lookup f (store f buckets slot state) other ≡ lookup f buckets other
  lookup-store_other [] slot other state h = rw h refl
  lookup-store_other (entry ∷ rest) slot other state h = elim (Bool-cases (eq_slot entry.0 slot)) [
    | inl e ↦ rw (eq_slot_path entry.0 slot e, eq_slot_refl slot, h) refl
    | inr e ↦ elim (Bool-cases (eq_slot entry.0 other)) [
      | inl o ↦ rw (e, o) refl
      | inr o ↦ rw (e, o) (lookup-store_other rest slot other state h)
    ]
  ]
