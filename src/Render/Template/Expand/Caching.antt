-- ===== src/Render/Template/Expand/Caching.antt =====
-- The per-render cache of resolved templates changes no output.
use thewiki.Prelude.{ℕ, zero, suc, ◌+◌, ◌-◌, ◌≡◌, refl, ap, Option, none, some, List, [], ◌∷◌}
use thewiki.Prelude.Tests.{ltb}
use thewiki.Prelude.Lists.{take, drop}
use thewiki.Prelude.Text.{Text, starts_with, text_eq, trim_start}
use thewiki.Render.Template.Scan.{
  open2, open3, find_matching_triple_close, find_matching_double_close, split_top_level_pipes,
}
use thewiki.Render.Template.Diagnostics.{Site}
use thewiki.Render.Template.Frame.{TemplateSource, Resolver, Cache, Run, Frame, Rec, is_some}
use thewiki.Render.Template.Call.{
  parse_argument, cache_get, contains, bind_args, enter, respond, call_name, call_args, call_inner,
}
use thewiki.Render.Template.Expand.{
  param_at, try_param_ref, call_at, try_template_call, triple_branch, double_branch, or_call,
  body_step, body_loop, output, expand_body,
}
use thewiki.Render.Template.Expand.Agrees.{
  IsSound, Same, Agrees, Agrees-pure, Agrees-if, Agrees-bind, lookup_source-Agrees,
}

module _ (resolver : Resolver) (max_depth : ℕ) (rec : Rec)
    (inner_agrees : (fr : Frame) (body : Text) → Agrees resolver (rec fr body)) where
  bind_args-Agrees :
      (expand_arg : Text → Run Text)
      → ((s : Text) → Agrees resolver (expand_arg s))
      → (raws : List Text) (index : ℕ) → Agrees resolver (bind_args expand_arg raws index)
  unfolding bind_args
  bind_args-Agrees expand_arg h [] index = Agrees-pure []
  bind_args-Agrees expand_arg h (raw ∷ raws) index = Agrees-bind _ _ (h _) λ expanded.
      Agrees-bind _ _ (bind_args-Agrees expand_arg h raws (parse_argument raw index).1)
        λ bound. Agrees-pure _

  module _ (fr : Frame) where
    enter-Agrees :
        (site : Site) (name : Text) (raw_args : List Text) (src : TemplateSource)
        → Agrees resolver (enter max_depth rec fr site name raw_args src)
    unfolding enter
    enter-Agrees site name raw_args src = Agrees-if (contains fr.stack src.id) _ _ (Agrees-pure _) (
        Agrees-if (ltb max_depth (fr.depth + 1)) _ _ (Agrees-pure _) (
          Agrees-bind _ _ (bind_args-Agrees _ (λ s. inner_agrees _ s) raw_args 1)
            λ bound. inner_agrees _ src.body))

    respond-Agrees :
        (site : Site) (parts : List Text) (source : Option TemplateSource)
        → Agrees resolver (respond resolver max_depth rec fr site parts source)
    unfolding respond
    respond-Agrees site parts none = Agrees-pure _
    respond-Agrees site parts (some src) =
        Agrees-bind _ _ (enter-Agrees site _ (call_args parts) src) λ out. Agrees-pure _

    call_inner-Agrees :
        (site : Site) (inner : Text)
        → Agrees resolver (call_inner resolver max_depth rec fr site inner)
    unfolding call_inner
    call_inner-Agrees site inner =
        Agrees-if (starts_with (b'#' ∷ []) (trim_start inner)) _ _ (Agrees-pure _) (
          Agrees-if (text_eq (call_name (split_top_level_pipes inner)) []) _ _ (Agrees-pure _) (
            Agrees-bind _ _ (lookup_source-Agrees resolver _)
              (respond-Agrees site (split_top_level_pipes inner))))

    call_at-Agrees :
        (full : Text) (offset : ℕ) (slice : Text) (end : Option ℕ)
        → Agrees resolver (call_at resolver max_depth rec fr full offset slice end)
    unfolding call_at
    call_at-Agrees full offset slice none = Agrees-pure _
    call_at-Agrees full offset slice (some end) =
        Agrees-bind _ _ (call_inner-Agrees _ (take end (drop 2 slice))) λ out. Agrees-pure _

    param_at-Agrees : (slice : Text) (end : Option ℕ) → Agrees resolver (param_at rec fr slice end)
    unfolding param_at
    param_at-Agrees slice none = Agrees-pure _
    param_at-Agrees slice (some end) = Agrees-bind _ _ (inner_agrees _ _) λ expanded. Agrees-pure _

    triple_branch-Agrees : (here : Text) → Agrees resolver (triple_branch rec fr here)
    unfolding triple_branch try_param_ref
    triple_branch-Agrees here =
        Agrees-if (starts_with open3 here) _ _
          (Agrees-if (is_some fr.in_template) _ _
            (param_at-Agrees here (find_matching_triple_close (drop 3 here))) (Agrees-pure _))
          (Agrees-pure _)

    double_branch-Agrees :
        (full : Text) (offset : ℕ) (here : Text)
        → Agrees resolver (double_branch resolver max_depth rec fr full offset here)
    unfolding double_branch try_template_call
    double_branch-Agrees full offset here =
        Agrees-if (starts_with open2 here) _ _
          (call_at-Agrees full offset here (find_matching_double_close (drop 2 here)))
          (Agrees-pure _)

    or_call-Agrees :
        (full : Text) (offset c : ℕ) (s : Text) (triple : Option (ℕ × Text))
        → Agrees resolver (or_call resolver max_depth rec fr full offset c s triple)
    unfolding or_call
    or_call-Agrees full offset c s (some r) = Agrees-pure r
    or_call-Agrees full offset c s none =
        Agrees-bind _ _ (double_branch-Agrees full offset (c ∷ s)) λ call. Agrees-pure _

    body_step-Agrees :
        (full : Text) (offset c : ℕ) (s : Text)
        → Agrees resolver (body_step resolver max_depth rec fr full offset c s)
    unfolding body_step
    body_step-Agrees full offset c s =
        Agrees-bind _ _ (triple_branch-Agrees (c ∷ s)) (or_call-Agrees full offset c s)

    body_loop-Agrees :
        (full : Text) (skip offset : ℕ) (s : Text)
        → Agrees resolver (body_loop resolver max_depth rec fr full skip offset s)
    unfolding body_loop
    body_loop-Agrees full skip offset [] = Agrees-pure []
    body_loop-Agrees full (suc k) offset (c ∷ s) = body_loop-Agrees full k (offset + 1) s
    body_loop-Agrees full zero offset (c ∷ s) =
        Agrees-bind _ _ (body_step-Agrees full offset c s) λ r.
          Agrees-bind _ _ (body_loop-Agrees full (r.0 - 1) (offset + 1) s) λ rest. Agrees-pure _

module _ (resolver : Resolver) (max_depth : ℕ) where
  out_of_fuel :
      (fr : Frame) (body : Text) → Agrees resolver (expand_body resolver max_depth zero fr body)
  unfolding expand_body
  out_of_fuel fr body = record { at = λ c d hc hd. tt }

  one_level :
      (fuel : ℕ) (fr : Frame) (body : Text)
      → Agrees resolver
          (body_loop resolver max_depth (expand_body resolver max_depth fuel) fr body 0 0 body)
      → Agrees resolver (expand_body resolver max_depth (suc fuel) fr body)
  unfolding expand_body
  one_level fuel fr body e = record { at = e.at }

  expand_body-Agrees :
      (fuel : ℕ) (fr : Frame) (body : Text)
      → Agrees resolver (expand_body resolver max_depth fuel fr body)
  expand_body-Agrees zero fr body = out_of_fuel fr body
  expand_body-Agrees (suc fuel) fr body = one_level fuel fr body (
      body_loop-Agrees resolver max_depth (expand_body resolver max_depth fuel)
        (expand_body-Agrees fuel) fr body 0 0 body)

  Same-output : (o p : Option (Text × Cache)) → Same resolver o p → output o ≡ output p
  Same-output none none s = refl
  Same-output none (some q) s = absurd s
  Same-output (some p) none s = absurd s
  Same-output (some p) (some q) s = ap some s.0

pub IsSound-nil : (resolver : Resolver) → IsSound resolver []
unfolding cache_get
IsSound-nil resolver key src e = cc

-- Whatever the cache holds of the resolver's answers, the output is that of an empty cache.
pub expand_body_cache :
    (resolver : Resolver) (max_depth fuel : ℕ) (fr : Frame) (body : Text) (cache : Cache)
    → IsSound resolver cache
    → output (expand_body resolver max_depth fuel fr body cache)
      ≡ output (expand_body resolver max_depth fuel fr body [])
expand_body_cache resolver max_depth fuel fr body cache h =
    Same-output resolver max_depth _ _
      ((expand_body-Agrees resolver max_depth fuel fr body).at cache [] h (IsSound-nil resolver))
