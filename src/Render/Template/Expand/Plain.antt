-- ===== src/Render/Template/Expand/Plain.antt =====
-- Text with no `{{` is left as it is.
use thewiki.Prelude.{
  ◌++◌, ℕ, suc, ◌+◌, ◌≡◌, refl, ap, ◌∙◌, Bool, false, true, ◌||◌, none, some, [], ◌∷◌, arith,
}
use thewiki.Prelude.Text.{Text, starts_with}
use thewiki.Render.Template.Scan.{open2, open3}
use thewiki.Render.Template.Scan.Within.{NoTriple}
use thewiki.Render.Template.Frame.{Resolver, Run, pure, bind_pure, Frame, Rec}
use thewiki.Render.Template.Expand.{
  triple_branch, double_branch, or_call, body_step, body_loop, expand_body, output, top, expand,
}

unfoldable pub occurs : Text → Text → Bool
occurs p [] = false
occurs p (c ∷ s) = starts_with p (c ∷ s) || occurs p s

module _ (resolver : Resolver) (max_depth : ℕ) (rec : Rec) (fr : Frame) where
  pub triple_branch_idle :
      (here : Text) → starts_with open3 here ≡ false → triple_branch rec fr here ≡ pure none
  unfolding triple_branch
  triple_branch_idle here h = rw h

  double_branch_idle :
      (full : Text) (offset : ℕ) (here : Text)
      → starts_with open2 here ≡ false
      → double_branch resolver max_depth rec fr full offset here ≡ pure none
  unfolding double_branch
  double_branch_idle full offset here h = rw h

  no_triple : (s : Text) → starts_with open2 s ≡ false → starts_with open3 s ≡ false
  no_triple [] h = refl
  no_triple (c ∷ []) h = ground arith
  no_triple (c ∷ d ∷ s) h = ground arith

  pub body_step_plain :
      (full : Text) (offset c : ℕ) (s : Text)
      → starts_with open2 (c ∷ s) ≡ false
      → body_step resolver max_depth rec fr full offset c s ≡ pure (1, c ∷ [])
  unfolding body_step or_call
  body_step_plain full offset c s h =
      bind_pure (triple_branch rec fr (c ∷ s)) none _
        (triple_branch_idle (c ∷ s) (no_triple (c ∷ s) h))
      ∙ bind_pure (double_branch resolver max_depth rec fr full offset (c ∷ s)) none _
          (double_branch_idle full offset (c ∷ s) h)

  body_loop_plain :
      (full : Text) (offset : ℕ) (s : Text)
      → occurs open2 s ≡ false
      → body_loop resolver max_depth rec fr full 0 offset s ≡ pure s
  unfolding body_loop occurs
  body_loop_plain full offset [] h = refl
  body_loop_plain full offset (c ∷ s) h =
      bind_pure (body_step resolver max_depth rec fr full offset c s) (1, c ∷ []) _
        (body_step_plain full offset c s (ground arith))
      ∙ bind_pure (body_loop resolver max_depth rec fr full 0 (offset + 1) s) s _
          (body_loop_plain full (offset + 1) s (ground arith))

-- A page that opens no brace pair comes out unchanged, whatever templates there are.
expand_plain :
    (fuel : ℕ) (source : Text) (resolver : Resolver) (max_depth : ℕ)
    → occurs open2 source ≡ false
    → expand (suc fuel) source resolver max_depth ≡ some source
unfolding expand expand_body pure
expand_plain fuel source resolver max_depth h =
    ap (λ (m : Run Text). output (m []))
      (body_loop_plain resolver max_depth (expand_body resolver max_depth fuel) top source 0 source
        h)

occurs-append : (before after : Text) → occurs open3 (before ++ (open3 ++ after)) ≡ true
unfolding occurs
occurs-append [] after = refl
occurs-append (c ∷ before) after = rw (occurs-append before after) (or-true _)
  where
    or-true : (b : Bool) → (b || true) ≡ true
    or-true true = refl
    or-true false = refl

-- the test for `NoTriple`
pub NoTriple-occurs : (s : Text) → occurs open3 s ≡ false → NoTriple s
NoTriple-occurs s h = record {
  absent = λ w.
      let yes_it_does : occurs open3 s ≡ true =
        ap (occurs open3) w.same ∙ occurs-append w.before w.after in
      cc (h, yes_it_does);
}
