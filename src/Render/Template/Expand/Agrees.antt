-- ===== src/Render/Template/Expand/Agrees.antt =====
-- Actions that give one result from any two caches of the resolver's answers.
use thewiki.Prelude.{
  ◌≡◌, refl, sym, ap₂, ◌∙◌, subst, inl, inr, Bool, true, false, Option, none, some, ◌∷◌,
}
use thewiki.Prelude.Tests.{Bool-cases, Option-cases, &&-parts, if◌then◌else◌}
use thewiki.Prelude.Text.{Text, text_eq_iff}
use thewiki.Render.Template.Frame.{TemplateSource, Resolver, Cache, Run, resume, ◌>>=◌, pure}
use thewiki.Render.Template.Call.{key_eq, cache_get, lookup_source}

-- Every cached source is what the resolver gives for its key.
abbrev pub IsSound : Resolver → Cache → Type 0
IsSound resolver cache =
    (key : Text × Text) (src : TemplateSource)
    → cache_get key cache ≡ some src
    → resolver.resolve key.0 key.1 ≡ some src

abbrev pub Same : {A : Type 0} → Resolver → Option (A × Cache) → Option (A × Cache) → Type 0
Same resolver none none = Unit
Same resolver none (some q) = ⊥
Same resolver (some p) none = ⊥
Same resolver (some p) (some q) = (p.0 ≡ q.0) × IsSound resolver p.1 × IsSound resolver q.1

-- From any two sound caches `m` gives one result, or none from both.
pub record Agrees {A : Type 0} (resolver : Resolver) (m : Run A) : Type 0 where
  pub at : (c d : Cache) → IsSound resolver c → IsSound resolver d → Same resolver (m c) (m d)

module _ {resolver : Resolver} where
  module _ {A : Type 0} where
    pub Agrees-pure : (a : A) → Agrees resolver (pure a)
    unfolding pure
    Agrees-pure a = record { at = λ c d hc hd. (refl, hc, hd) }

    pub Agrees-if :
        (b : Bool) (m n : Run A)
        → Agrees resolver m
        → Agrees resolver n
        → Agrees resolver (if b then m else n)
    Agrees-if true m n hm hn = hm
    Agrees-if false m n hm hn = hn

  module _ {A B : Type 0} where
    Same-resume :
        (f : A → Run B)
        → ((a : A) → Agrees resolver (f a))
        → (o p : Option (A × Cache)) → Same resolver o p
        → Same resolver (resume o f) (resume p f)
    Same-resume f hf none none s = tt
    Same-resume f hf none (some q) s = absurd s
    Same-resume f hf (some p) none s = absurd s
    Same-resume f hf (some (a, c)) (some (b, d)) (e, hc, hd) =
        subst (λ x. Same resolver (f a c) (f x d)) e ((hf a).at c d hc hd)

    pub Agrees-bind :
        (m : Run A) (f : A → Run B)
        → Agrees resolver m
        → ((a : A) → Agrees resolver (f a))
        → Agrees resolver (m >>= f)
    unfolding ◌>>=◌
    Agrees-bind m f hm hf = record {
      at = λ c d hc hd. Same-resume f hf (m c) (m d) (hm.at c d hc hd);
    }

key_eq-true : (k key : Text × Text) → key_eq k key ≡ true → k ≡ key
key_eq-true (a, b) (c, d) e =
    let (p, q) = &&-parts _ _ e in
    ap₂ (λ x y. (x, y)) ((text_eq_iff a c).0 p) ((text_eq_iff b d).0 q)

module _ (resolver : Resolver) where
  pub IsSound-cons :
      (key : Text × Text) (src : TemplateSource) (cache : Cache)
      → IsSound resolver cache
      → resolver.resolve key.0 key.1 ≡ some src
      → IsSound resolver ((key, src) ∷ cache)
  unfolding cache_get
  IsSound-cons key src cache h known other found e = elim (Bool-cases (key_eq key other)) [
    | inl same ↦
        let hit : some src ≡ some found = rw (same, cache_get) at e in
        subst (λ (k : Text × Text). resolver.resolve k.0 k.1 ≡ some found)
          (key_eq-true key other same) (known ∙ hit)
    | inr different ↦ h other found (rw (different, cache_get) at e)
  ]

  -- what a lookup gives from a sound cache: the resolver's answer
  lookup_source-IsSound :
      (key : Text × Text) (cache : Cache)
      → IsSound resolver cache
      → (cache' : Cache) × (lookup_source resolver key cache
          ≡ some (resolver.resolve key.0 key.1, cache'))
        × IsSound resolver cache'
  unfolding lookup_source
  lookup_source-IsSound key cache h = elim (Option-cases (cache_get key cache)) [
    | inr (src, hit) ↦ (cache, rw (hit, lookup_source, h key src hit), h)
    | inl miss ↦ elim (Option-cases (resolver.resolve key.0 key.1)) [
      | inl unknown ↦ (cache, rw (miss, lookup_source, unknown), h)
      | inr (src, known) ↦
          ((key, src) ∷ cache, rw (miss, lookup_source, known), IsSound-cons key src cache h known)
    ]
  ]

  pub lookup_source-Agrees : (key : Text × Text) → Agrees resolver (lookup_source resolver key)
  lookup_source-Agrees key = record {
    at = λ c d hc hd.
        let (c', ec, sc) = lookup_source-IsSound key c hc in
        let (d', ed, sd) = lookup_source-IsSound key d hd in
        subst (λ o. Same resolver o (lookup_source resolver key d)) (sym ec)
          (subst (λ o. Same resolver (some (resolver.resolve key.0 key.1, c')) o) (sym ed)
            (refl, sc, sd));
  }
