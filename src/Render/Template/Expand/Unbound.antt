-- ===== src/Render/Template/Expand/Unbound.antt =====
-- A parameter reference with no argument and no default is replaced by itself and expanded again.
use thewiki.Prelude.{
  append_assoc, append-nil, false, ℕ, zero, suc, ◌+◌, ◌≡◌, ◌≢◌, refl, ap, ◌∙◌, true, Option, none,
  some, List, [], ◌∷◌, ◌++◌, arith,
}
use thewiki.Prelude.Lists.{All, length, take, take-append}
use thewiki.Prelude.Int.{pos}
use thewiki.Prelude.Text.{Text, starts_with, trim, codes}
use thewiki.Render.Template.Scan.{
  open2, open3, close3, find_from, find_matching_triple_close, top_level_step, cut,
  split_top_level_pipe,
}
use thewiki.Render.Template.Scan.Nesting.{NoBrace}
use thewiki.Render.Template.Frame.{
  Resolver, Arg, Cache, Run, ◌>>=◌, resume, pure, Frame, Rec, is_some,
}
use thewiki.Render.Template.Call.{name_and_default, lookup_arg, param_parts, param_text}
use thewiki.Render.Template.Expand.{
  param_at, try_param_ref, triple_branch, body_step, body_loop, expand_body,
}
use thewiki.Render.Template.Expand.Plain.{body_step_plain}

-- A parameter name that stands for itself: no brace, no pipe, no space at its ends.
pub record IsName (name : Text) : Type 0 where
  pub plain : All (λ c. NoBrace c × (c ≢ b'|')) name
  pub trimmed : trim name ≡ name

-- `{{{name}}}`
abbrev pub reference : Text → Text
reference name = open3 ++ (name ++ close3)

triple_close_behind :
    (name rest : Text)
    → All (λ c. NoBrace c × (c ≢ b'|')) name
    → find_matching_triple_close (name ++ (close3 ++ rest)) ≡ some (length name)
unfolding find_matching_triple_close
triple_close_behind [] rest h = refl
triple_close_behind (c ∷ name) rest h = ground (arith, triple_close_behind name rest h.1)

no_pipe :
    (name : Text)
    → All (λ c. NoBrace c × (c ≢ b'|')) name
    → find_from (top_level_step b'|') 0 (pos 0) name ≡ none
unfolding find_from top_level_step
no_pipe [] h = refl
no_pipe (c ∷ name) h = ground (arith, no_pipe name h.1)

param_parts_name : (name : Text) → IsName name → param_parts name ≡ (name, none)
unfolding param_parts split_top_level_pipe
param_parts_name name h =
    ap (λ o. name_and_default name (cut name o)) (no_pipe name h.plain)
    ∙ ap (λ t. (t, none)) h.trimmed

-- the text that would replace the reference is the reference
param_text_unbound :
    (args : List Arg) (name : Text)
    → IsName name
    → lookup_arg name args ≡ none
    → param_text args (param_parts name) ≡ reference name
unfolding param_text
param_text_unbound args name h unbound = rw (param_parts_name name h) (rw (unbound, param_text))

module _ (name : Text) (h : IsName name) where
  closed :
      (rest : Text) → find_matching_triple_close ((name ++ close3) ++ rest) ≡ some (length name)
  closed rest = rw append_assoc (triple_close_behind name rest h.plain)

  taken : (rest : Text) → take (length name) ((name ++ close3) ++ rest) ≡ name
  taken rest = rw append_assoc (take-append name (close3 ++ rest))

  module _ (rec : Rec) (fr : Frame) (cache : Cache) (rest : Text)
      (unbound : lookup_arg name fr.args ≡ none)
      (stuck : rec (record fr { in_template = some (codes "<param>") }) (reference name) cache
        ≡ none) where
    param_at_unbound : param_at rec fr (reference name ++ rest) (some (length name)) cache ≡ none
    unfolding param_at ◌>>=◌
    param_at_unbound =
        let k : Text → Run (Option (ℕ × Text)) =
          λ expanded. pure (some (3 + length name + 3, expanded)) in
        let inside = record fr { in_template = some (codes "<param>") } in
        ap (λ t. resume (rec inside (param_text fr.args (param_parts t)) cache) k) (taken rest)
        ∙ ap (λ t. resume (rec inside t cache) k) (param_text_unbound fr.args name h unbound)
        ∙ ap (λ o. resume o k) stuck

    try_unbound : try_param_ref rec fr (reference name ++ rest) cache ≡ none
    unfolding try_param_ref
    try_unbound =
        ap (λ o. param_at rec fr (reference name ++ rest) o cache) (closed rest) ∙ param_at_unbound

    triple_unbound :
        is_some fr.in_template ≡ true → triple_branch rec fr (reference name ++ rest) cache ≡ none
    unfolding triple_branch
    triple_unbound inside = rw inside try_unbound

module _ (resolver : Resolver) (max_depth : ℕ) (rec : Rec) (fr : Frame) (full : Text) where
  step_stuck :
      (offset c : ℕ) (s : Text) (cache : Cache)
      → triple_branch rec fr (c ∷ s) cache ≡ none
      → body_step resolver max_depth rec fr full offset c s cache ≡ none
  unfolding body_step ◌>>=◌
  step_stuck offset c s cache e = rw e

  loop_stuck :
      (offset c : ℕ) (s : Text) (cache : Cache)
      → body_step resolver max_depth rec fr full offset c s cache ≡ none
      → body_loop resolver max_depth rec fr full 0 offset (c ∷ s) cache ≡ none
  unfolding body_loop ◌>>=◌
  loop_stuck offset c s cache e = rw e

  not_open : (c : ℕ) (s : Text) → NoBrace c → starts_with open2 (c ∷ s) ≡ false
  not_open c [] h = ground arith
  not_open c (d ∷ s) h = ground arith

  loop_after :
      (offset c : ℕ) (s : Text) (cache : Cache)
      → NoBrace c
      → body_loop resolver max_depth rec fr full 0 (offset + 1) s cache ≡ none
      → body_loop resolver max_depth rec fr full 0 offset (c ∷ s) cache ≡ none
  unfolding body_loop ◌>>=◌ pure
  loop_after offset c s cache h stuck =
      rw (body_step_plain resolver max_depth rec fr full offset c s (not_open c s h), stuck)

  -- plain text before the point where the loop is stuck changes nothing
  loop_behind :
      (before s : Text) (cache : Cache)
      → All NoBrace before
      → ((offset : ℕ) → body_loop resolver max_depth rec fr full 0 offset s cache ≡ none)
      → (offset : ℕ) → body_loop resolver max_depth rec fr full 0 offset (before ++ s) cache ≡ none
  loop_behind [] s cache h stuck offset = stuck offset
  loop_behind (c ∷ before) s cache h stuck offset =
      loop_after offset c (before ++ s) cache h.0
        (loop_behind before s cache h.1 stuck (offset + 1))

-- In a template's body (or an argument), a reference to a parameter that is not bound and has no
-- default, behind text with no brace, uses up any amount of fuel: the expansion never returns.
pub expand_body_unbound :
    (resolver : Resolver) (max_depth : ℕ) (name : Text)
    → IsName name
    → (fuel : ℕ) (fr : Frame) (before rest : Text) (cache : Cache) → is_some fr.in_template ≡ true
    → lookup_arg name fr.args ≡ none
    → All NoBrace before
    → expand_body resolver max_depth fuel fr (before ++ (reference name ++ rest)) cache ≡ none
unfolding expand_body
expand_body_unbound resolver max_depth name h zero fr before rest cache inside unbound plain = refl
expand_body_unbound resolver max_depth name h (suc fuel) fr before rest cache inside unbound plain =
    let again =
      expand_body_unbound resolver max_depth name h fuel
        (record fr { in_template = some (codes "<param>") }) [] [] cache refl unbound tt in
    loop_behind resolver max_depth (expand_body resolver max_depth fuel) fr
      (before ++ (reference name ++ rest)) before (reference name ++ rest) cache plain
      (λ offset.
        loop_stuck resolver max_depth (expand_body resolver max_depth fuel) fr _ offset b'{' _ cache
          (step_stuck resolver max_depth (expand_body resolver max_depth fuel) fr _ offset b'{' _
            cache
            (triple_unbound name h (expand_body resolver max_depth fuel) fr cache rest unbound
              (rw append-nil at again) inside)))
      0
