-- ===== src/Render/Template/Expand/Clean.antt =====
-- Texts without parameter references: in the cache, among the arguments of a call.
use thewiki.Prelude.{ℕ, suc, ◌≡◌, refl, subst, inl, inr, Option, none, some, List, [], ◌∷◌, arith}
use mathlib.Core.Option.{some-injective}
use thewiki.Prelude.Tests.{Option-cases}
use thewiki.Prelude.Lists.{All}
use thewiki.Prelude.Text.{Text}
use thewiki.Render.Template.Scan.{find_top_level_equals, cut}
use thewiki.Render.Template.Scan.Within.{Within, drop-Within, NoTriple, NoTriple-Within}
use thewiki.Render.Template.Frame.{TemplateSource, Resolver, Cache}
use thewiki.Render.Template.Call.{parse_argument, cache_get, lookup_source, call_args}
use thewiki.Render.Template.Expand.Ends.{Gives, Ends}

abbrev pub Any : {A : Type 0} → A → Type 0
Any a = Unit

-- Every cached body is free of parameter references.
abbrev pub IsClean : Cache → Type 0
IsClean cache = All (λ e. NoTriple e.1.body) cache

abbrev pub CleanResolver : Resolver → Type 0
CleanResolver resolver =
    (ns name : Text) (src : TemplateSource)
    → resolver.resolve ns name ≡ some src
    → NoTriple src.body

abbrev pub CleanSource : Option TemplateSource → Type 0
CleanSource none = Unit
CleanSource (some src) = NoTriple src.body

cache_get-clean :
    (key : Text × Text) (cache : Cache) → IsClean cache → CleanSource (cache_get key cache)
unfolding cache_get
cache_get-clean key [] h = tt
cache_get-clean key ((k, src) ∷ cache) h = ground (arith, cache_get-clean key cache h.1)

module _ (resolver : Resolver) (clean : CleanResolver resolver) where
  source_ends :
      (key : Text × Text) (cache : Cache)
      → IsClean cache
      → Gives IsClean CleanSource (lookup_source resolver key cache)
  unfolding lookup_source
  source_ends key cache inv = elim (Option-cases (cache_get key cache)) [
    | inr (src, hit) ↦
        rw (hit, lookup_source)
          (record {
            result = some src;
            cache = cache;
            same = refl;
            keeps = inv;
            holds = subst CleanSource hit (cache_get-clean key cache inv);
          })
    | inl miss ↦ elim (Option-cases (resolver.resolve key.0 key.1)) [
      | inl unknown ↦
          rw (miss, lookup_source, unknown)
            (record { result = none; cache = cache; same = refl; keeps = inv; holds = tt })
      | inr (src, known) ↦
          rw (miss, lookup_source, known)
            (record {
              result = some src;
              cache = (key, src) ∷ cache;
              same = refl;
              keeps = (clean key.0 key.1 src known, inv);
              holds = clean key.0 key.1 src known;
            })
    ]
  ]

  pub lookup_source-Ends :
      (key : Text × Text) → Ends IsClean CleanSource (lookup_source resolver key)
  lookup_source-Ends key = record { at = source_ends key }

cut-Within : (raw : Text) (o : Option ℕ) (p : Text × Text) → cut raw o ≡ some p → Within p.1 raw
cut-Within raw none p e = cc
cut-Within raw (some i) p e =
    subst (λ (q : Text × Text). Within q.1 raw) (some-injective _ _ e) (drop-Within (suc i) raw)

Within-refl : (s : Text) → Within s s
Within-refl s = drop-Within 0 s

pub arg_value : (raw : Text) (index : ℕ) → Within (parse_argument raw index).0.value raw
unfolding parse_argument
arg_value raw index = elim (Option-cases (cut raw (find_top_level_equals raw))) [
  | inl bare ↦ rw (bare, parse_argument) (Within-refl raw)
  | inr (p, named) ↦ rw (named, parse_argument) (cut-Within raw (find_top_level_equals raw) p named)
]

pub call_args-NoTriple :
    (s : Text) (parts : List Text)
    → NoTriple s
    → All (λ x. Within x s) parts
    → All NoTriple (call_args parts)
call_args-NoTriple s [] h w = tt
call_args-NoTriple s (p ∷ ps) h w = all_parts ps w.1
  where
    all_parts : (qs : List Text) → All (λ x. Within x s) qs → All NoTriple qs
    all_parts [] w = tt
    all_parts (q ∷ qs) w = (NoTriple-Within w.0 h, all_parts qs w.1)
