-- ===== src/Render/Template/Expand/Totality.antt =====
-- Where no text holds a parameter reference, the depth limit bounds the expansion.
use thewiki.Prelude.{
  ℕ, zero, suc, ◌+◌, ◌-◌, ◌≤◌, ◌<◌, ◌≡◌, refl, sym, ap, subst, false, Option, none, some, List, [],
  ◌∷◌, arith,
}
use thewiki.Prelude.Tests.{ltb, not_ltb→le}
use thewiki.Prelude.Lists.{All, take, drop}
use thewiki.Prelude.Text.{Text, starts_with, text_eq, trim_start}
use thewiki.Render.Template.Scan.{open2, find_matching_double_close, split_top_level_pipes}
use thewiki.Render.Template.Scan.Within.{
  Within-trans, take-Within, drop-Within, tail-Within, split-Within, NoTriple, NoTriple-Within,
  NoTriple-starts_with,
}
use thewiki.Render.Template.Diagnostics.{Site}
use thewiki.Render.Template.Frame.{TemplateSource, Resolver, Run, bind_pure, Frame, Rec}
use thewiki.Render.Template.Call.{
  parse_argument, bind_args, contains, enter, respond, call_name, call_args, call_inner,
}
use thewiki.Render.Template.Expand.{
  call_at, try_template_call, triple_branch, double_branch, or_call, body_step, body_loop,
  expand_body, output, top, expand,
}
use thewiki.Render.Template.Expand.Plain.{triple_branch_idle}
use thewiki.Render.Template.Expand.Ends.{Ends, Ends-pure, Ends-if, Ends-bind}
use thewiki.Render.Template.Expand.Clean.{
  Any, IsClean, CleanResolver, CleanSource, lookup_source-Ends, arg_value, call_args-NoTriple,
}

-- The parts of a call, given that expansions one level deeper end.
module _ (resolver : Resolver) (clean : CleanResolver resolver) (max_depth : ℕ) (rec : Rec)
    (fr : Frame)
    (deeper : (fr' : Frame) (body : Text)
      → fr'.depth ≡ fr.depth + 1
      → fr'.depth ≤ max_depth
      → NoTriple body
      → Ends IsClean Any (rec fr' body)) where
  bind_args-Ends :
      (expand_arg : Text → Run Text)
      → ((s : Text) → NoTriple s → Ends IsClean Any (expand_arg s))
      → (raws : List Text) (index : ℕ) → All NoTriple raws
      → Ends IsClean Any (bind_args expand_arg raws index)
  unfolding bind_args
  bind_args-Ends expand_arg ends [] index h = Ends-pure [] tt
  bind_args-Ends expand_arg ends (raw ∷ raws) index h =
      Ends-bind _ _ (ends _ (NoTriple-Within (arg_value raw index) h.0)) λ expanded _.
        Ends-bind _ _ (bind_args-Ends expand_arg ends raws (parse_argument raw index).1 h.1)
          λ bound _. Ends-pure _ tt

  arg-Ends :
      (s : Text) (fr' : Frame)
      → fr'.depth ≡ fr.depth + 1
      → ltb max_depth (fr.depth + 1) ≡ false
      → NoTriple s
      → Ends IsClean Any (rec fr' s)
  arg-Ends s fr' e room h = deeper fr' s e (not_ltb→le _ _ (rw e room)) h

  enter-Ends :
      (site : Site) (name : Text) (raw_args : List Text) (src : TemplateSource)
      → All NoTriple raw_args
      → NoTriple src.body
      → Ends IsClean Any (enter max_depth rec fr site name raw_args src)
  unfolding enter
  enter-Ends site name raw_args src ha hb =
      Ends-if (contains fr.stack src.id) _ _ (λ _. Ends-pure _ tt)
        λ _.
          Ends-if (ltb max_depth (fr.depth + 1)) _ _ (λ _. Ends-pure _ tt)
            λ room.
              Ends-bind _ _ (bind_args-Ends _ (λ s hs. arg-Ends s _ refl room hs) raw_args 1 ha)
                λ bound _. arg-Ends src.body _ refl room hb

  respond-Ends :
      (site : Site) (parts : List Text) (source : Option TemplateSource)
      → All NoTriple (call_args parts)
      → CleanSource source
      → Ends IsClean Any (respond resolver max_depth rec fr site parts source)
  unfolding respond
  respond-Ends site parts none ha hs = Ends-pure _ tt
  respond-Ends site parts (some src) ha hs =
      Ends-bind _ _ (enter-Ends site _ (call_args parts) src ha hs) λ out _. Ends-pure _ tt

  call_inner-Ends :
      (site : Site) (inner : Text)
      → NoTriple inner
      → Ends IsClean Any (call_inner resolver max_depth rec fr site inner)
  unfolding call_inner
  call_inner-Ends site inner h =
      Ends-if (starts_with (b'#' ∷ []) (trim_start inner)) _ _ (λ _. Ends-pure _ tt)
        λ _.
          Ends-if (text_eq (call_name (split_top_level_pipes inner)) []) _ _ (λ _. Ends-pure _ tt)
            λ _. Ends-bind _ _ (lookup_source-Ends resolver clean _) λ source hs.
              respond-Ends site (split_top_level_pipes inner) source
                (call_args-NoTriple inner _ h (split-Within inner)) hs

  call_at-Ends :
      (full : Text) (offset : ℕ) (slice : Text) (end : Option ℕ)
      → NoTriple slice
      → Ends IsClean Any (call_at resolver max_depth rec fr full offset slice end)
  unfolding call_at
  call_at-Ends full offset slice none h = Ends-pure _ tt
  call_at-Ends full offset slice (some end) h =
      Ends-bind _ _
        (call_inner-Ends _ (take end (drop 2 slice))
          (NoTriple-Within (Within-trans (take-Within end (drop 2 slice)) (drop-Within 2 slice)) h))
        λ out _. Ends-pure _ tt

  double_branch-Ends :
      (full : Text) (offset : ℕ) (here : Text)
      → NoTriple here
      → Ends IsClean Any (double_branch resolver max_depth rec fr full offset here)
  unfolding double_branch try_template_call
  double_branch-Ends full offset here h =
      Ends-if (starts_with open2 here) _ _
        (λ _. call_at-Ends full offset here (find_matching_double_close (drop 2 here)) h)
        (λ _. Ends-pure _ tt)

  body_step-Ends :
      (full : Text) (offset c : ℕ) (s : Text)
      → NoTriple (c ∷ s)
      → Ends IsClean Any (body_step resolver max_depth rec fr full offset c s)
  unfolding body_step or_call
  body_step-Ends full offset c s h =
      subst (Ends IsClean Any)
        (sym (
          bind_pure (triple_branch rec fr (c ∷ s)) none
            (or_call resolver max_depth rec fr full offset c s)
            (triple_branch_idle resolver max_depth rec fr (c ∷ s)
              (NoTriple-starts_with (c ∷ s) h))))
        (Ends-bind _ _ (double_branch-Ends full offset (c ∷ s) h) λ call _. Ends-pure _ tt)

  body_loop-Ends :
      (full : Text) (skip offset : ℕ) (s : Text)
      → NoTriple s
      → Ends IsClean Any (body_loop resolver max_depth rec fr full skip offset s)
  unfolding body_loop
  body_loop-Ends full skip offset [] h = Ends-pure [] tt
  body_loop-Ends full (suc k) offset (c ∷ s) h =
      body_loop-Ends full k (offset + 1) s (NoTriple-Within (tail-Within c s) h)
  body_loop-Ends full zero offset (c ∷ s) h =
      Ends-bind _ _ (body_step-Ends full offset c s h) λ r _.
        Ends-bind _ _
          (body_loop-Ends full (r.0 - 1) (offset + 1) s (NoTriple-Within (tail-Within c s) h))
          λ rest _. Ends-pure _ tt

module _ (resolver : Resolver) (clean : CleanResolver resolver) (max_depth : ℕ) where
  one_level :
      (fuel : ℕ) (fr : Frame) (body : Text)
      → Ends IsClean Any
          (body_loop resolver max_depth (expand_body resolver max_depth fuel) fr body 0 0 body)
      → Ends IsClean Any (expand_body resolver max_depth (suc fuel) fr body)
  unfolding expand_body
  one_level fuel fr body e = record { at = e.at }

  expand_body-Ends :
      (fuel : ℕ) (fr : Frame) (body : Text)
      → fr.depth ≤ max_depth
      → max_depth < fuel + fr.depth
      → NoTriple body
      → Ends IsClean Any (expand_body resolver max_depth fuel fr body)
  expand_body-Ends zero fr body below enough h = absurd (omega arith)
  expand_body-Ends (suc fuel) fr body below enough h = one_level fuel fr body (
      body_loop-Ends resolver clean max_depth (expand_body resolver max_depth fuel) fr
        (λ fr' body' e below' h'. expand_body-Ends fuel fr' body' below' (omega arith) h') body 0 0
        body h)

-- Where neither the page nor any template holds `{{{`, the depth limit alone bounds the expansion:
-- with one more level of fuel than `max_depth` a result comes out, whatever the templates call.
pub expand_total :
    (source : Text) (resolver : Resolver) (max_depth : ℕ)
    → CleanResolver resolver
    → NoTriple source
    → (out : Text) × (expand (max_depth + 1) source resolver max_depth ≡ some out)
unfolding expand
expand_total source resolver max_depth clean h =
    let g =
      (expand_body-Ends resolver clean max_depth (max_depth + 1) top source (omega arith)
          (omega arith) h).at
        [] tt in
    (g.result, ap output g.same)
