-- ===== src/Prelude/Result.antt =====
-- Rust's `Result`, with the error's type first.
use mathlib.Core.Path.{◌≡◌, refl}
use mathlib.Core.Bool.{Bool, true, false}
use mathlib.Core.Option.{Option, some, none}
use thewiki.Prelude.Tests.{if◌then◌else◌}
use mathlib.Core.Logic.{◌⊎◌, inl, inr}

pub data Result (E A : Type 0) : Type 0 where
  ok : A → Result E A
  err : E → Result E A

-- `map_err`
abbrev pub map_err : {E F A : Type 0} → (E → F) → Result E A → Result F A
map_err f (ok a) = ok a
map_err f (err e) = err (f e)

-- `?`
abbrev pub and_then : {E A B : Type 0} → Result E A → (A → Result E B) → Result E B
and_then (ok a) f = f a
and_then (err e) f = err e

pub Result-cases :
    {E A : Type 0} (r : Result E A) → ((a : A) × (r ≡ ok a)) ⊎ ((e : E) × (r ≡ err e))
Result-cases (ok a) = inl (a, refl)
Result-cases (err e) = inr (e, refl)

-- What a result that is `ok` says of its parts.
module _ {E A : Type 0} where
  pub and_then-ok :
      {B : Type 0} (r : Result E A) (f : A → Result E B) (b : B)
      → and_then r f ≡ ok b
      → (a : A) × (r ≡ ok a) × (f a ≡ ok b)
  and_then-ok (ok a) f b h = (a, refl, h)
  and_then-ok (err e) f b h = cc

  pub unless-ok :
      (c : Bool) (e : E) (r : Result E A) (a : A)
      → (if c then err e else r) ≡ ok a
      → (c ≡ false) × (r ≡ ok a)
  unless-ok true e r a h = cc
  unless-ok false e r a h = (refl, h)

  pub when-ok :
      (c : Bool) (e : E) (x a : A) → (if c then ok x else err e) ≡ ok a → (c ≡ true) × (a ≡ x)
  when-ok true e x a h = (refl, cc)
  when-ok false e x a h = cc

  pub otherwise-ok :
      (c : Bool) (e : E) (x a : A) → (if c then err e else ok x) ≡ ok a → (c ≡ false) × (a ≡ x)
  otherwise-ok true e x a h = cc
  otherwise-ok false e x a h = (refl, cc)

  pub some-ok :
      {B : Type 0} (o : Option B) (e : E) (k : B → Result E A) (a : A)
      → elim o [ none ↦ err e | some b ↦ k b ] ≡ ok a
      → (b : B) × (o ≡ some b) × (k b ≡ ok a)
  some-ok none e k a h = cc
  some-ok (some b) e k a h = (b, refl, h)

  pub map_err-ok : {F : Type 0} (f : E → F) (r : Result E A) (a : A) → map_err f r ≡ ok a → r ≡ ok a
  map_err-ok f (ok b) a h = cc
  map_err-ok f (err e) a h = cc

  pub ok-injective : (x y : A) → ◌≡◌ {A = Result E A} (ok x) (ok y) → x ≡ y
  ok-injective x y h = cc
