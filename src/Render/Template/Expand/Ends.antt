-- ===== src/Render/Template/Expand/Ends.antt =====
-- Actions over the cache that do not run out of fuel: `Ends I Q m` says that from a cache with `I`
-- the action `m` gives a result with `Q`, and leaves a cache with `I`.
use thewiki.Prelude.{◌≡◌, refl, sym, ap, subst, Bool, true, false, Option, some}
use thewiki.Prelude.Tests.{if◌then◌else◌}
use thewiki.Render.Template.Frame.{Cache, Run, resume, ◌>>=◌, pure}

pub record Gives {A : Type 0} (I : Cache → Type 0) (Q : A → Type 0) (o : Option (A × Cache))
    : Type 0 where
  pub result : A
  pub cache : Cache
  pub same : o ≡ some (result, cache)
  pub keeps : I cache
  pub holds : Q result

pub record Ends {A : Type 0} (I : Cache → Type 0) (Q : A → Type 0) (m : Run A) : Type 0 where
  pub at : (cache : Cache) → I cache → Gives I Q (m cache)

module _ {I : Cache → Type 0} {A : Type 0} {Q : A → Type 0} where
  pub Ends-pure : (a : A) → Q a → Ends I Q (pure a)
  unfolding pure
  Ends-pure a q = record {
    at = λ cache inv. record { result = a; cache = cache; same = refl; keeps = inv; holds = q };
  }

  pub Ends-if :
      (b : Bool) (m n : Run A)
      → (b ≡ true → Ends I Q m)
      → (b ≡ false → Ends I Q n)
      → Ends I Q (if b then m else n)
  Ends-if true m n hm hn = hm refl
  Ends-if false m n hm hn = hn refl

module _ {I : Cache → Type 0} {A B : Type 0} {Q : A → Type 0} {R : B → Type 0} where
  pub Ends-bind :
      (m : Run A) (f : A → Run B)
      → Ends I Q m
      → ((a : A) → Q a → Ends I R (f a))
      → Ends I R (m >>= f)
  unfolding ◌>>=◌
  Ends-bind m f hm hf = record {
    at = λ cache inv.
        let g = hm.at cache inv in
        subst (Gives I R) (sym (ap (λ o. resume o f) g.same))
          ((hf g.result g.holds).at g.cache g.keeps);
  }
