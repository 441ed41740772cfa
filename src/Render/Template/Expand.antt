-- ===== src/Render/Template/Expand.antt =====
-- `expand`, `expand_body`, `try_param_ref` and `try_template_call` of
-- crates/render/src/template.rs. The loop of `expand_body` is a recursion on the text from `i` on.
pub mod Plain
pub mod Ends
pub mod Clean
pub mod Totality
pub mod Unbound
pub mod Agrees
pub mod Caching
use thewiki.Prelude.{ℕ, zero, suc, ◌+◌, ◌-◌, Option, none, some, [], ◌∷◌, ◌++◌}
use thewiki.Prelude.Tests.{if◌then◌else◌}
use thewiki.Prelude.Lists.{take, drop}
use thewiki.Prelude.Text.{Text, codes, starts_with}
use thewiki.Render.Template.Scan.{
  open2, open3, find_matching_triple_close, find_matching_double_close,
}
use thewiki.Render.Template.Diagnostics.{line_col}
use thewiki.Render.Template.Frame.{Cache, Resolver, Run, ◌>>=◌, pure, Frame, Rec, is_some, or_else}
use thewiki.Render.Template.Call.{param_parts, param_text, call_inner}

-- `slice` begins with `{{{`, and its `}}}` stands at `end` behind that.
unfoldable pub param_at : Rec → Frame → Text → Option ℕ → Run (Option (ℕ × Text))
param_at rec fr slice none = pure none
param_at rec fr slice (some end) =
    let raw = param_text fr.args (param_parts (take end (drop 3 slice))) in
    rec (record fr { in_template = some (codes "<param>") }) raw >>= λ expanded.
    pure (some (3 + end + 3, expanded))

-- The length consumed and the substitution.
unfoldable pub try_param_ref : Rec → Frame → Text → Run (Option (ℕ × Text))
try_param_ref rec fr slice = param_at rec fr slice (find_matching_triple_close (drop 3 slice))

-- the length of a call whose inner text has the length `end`, with what replaces it
abbrev pub consumed_call : ℕ → Option Text → Option (ℕ × Text)
consumed_call end none = none
consumed_call end (some text) = some (2 + end + 2, text)

-- `slice` begins with `{{` at `offset` in `full`, and its `}}` stands at `end` behind that.
unfoldable pub call_at :
    Resolver → ℕ → Rec → Frame → Text → ℕ → Text → Option ℕ → Run (Option (ℕ × Text))
call_at resolver max_depth rec fr full offset slice none = pure none
call_at resolver max_depth rec fr full offset slice (some end) =
    let site = or_else fr.root_site (line_col full offset) in
    call_inner resolver max_depth rec fr site (take end (drop 2 slice)) >>= λ out.
    pure (consumed_call end out)

-- The length consumed and the substitution.
unfoldable pub try_template_call :
    Resolver → ℕ → Rec → Frame → Text → ℕ → Text → Run (Option (ℕ × Text))
try_template_call resolver max_depth rec fr full offset slice =
    call_at resolver max_depth rec fr full offset slice (find_matching_double_close (drop 2 slice))

-- `{{{…}}}` on a regular page, copied as it stands
abbrev pub verbatim : Text → Option ℕ → Option (ℕ × Text)
verbatim here none = none
verbatim here (some close) = some (3 + close + 3, take (3 + close + 3) here)

-- The branch of the loop on `{{{`, where it starts at this character.
unfoldable pub triple_branch : Rec → Frame → Text → Run (Option (ℕ × Text))
triple_branch rec fr here =
    if starts_with open3 here
    then (if is_some fr.in_template
        then try_param_ref rec fr here
        else pure (verbatim here (find_matching_triple_close (drop 3 here))))
    else pure none

unfoldable pub double_branch :
    Resolver → ℕ → Rec → Frame → Text → ℕ → Text → Run (Option (ℕ × Text))
double_branch resolver max_depth rec fr full offset here =
    if starts_with open2 here
    then try_template_call resolver max_depth rec fr full offset here
    else pure none

-- with no call, the character itself
abbrev pub or_char : ℕ → Option (ℕ × Text) → ℕ × Text
or_char c none = (1, c ∷ [])
or_char c (some r) = r

-- what follows the branch on `{{{`
unfoldable pub or_call :
    Resolver → ℕ → Rec → Frame → Text → ℕ → ℕ → Text → Option (ℕ × Text) → Run (ℕ × Text)
or_call resolver max_depth rec fr full offset c s (some r) = pure r
or_call resolver max_depth rec fr full offset c s none =
    double_branch resolver max_depth rec fr full offset (c ∷ s) >>= λ call. pure (or_char c call)

-- One round of the loop at the character `c`: how far `i` moves, and what is pushed.
unfoldable pub body_step : Resolver → ℕ → Rec → Frame → Text → ℕ → ℕ → Text → Run (ℕ × Text)
body_step resolver max_depth rec fr full offset c s =
    triple_branch rec fr (c ∷ s) >>= or_call resolver max_depth rec fr full offset c s

-- The loop of `expand_body` from `offset` on, with `skip` characters still to pass over.
unfoldable pub body_loop : Resolver → ℕ → Rec → Frame → Text → ℕ → ℕ → Text → Run Text
body_loop resolver max_depth rec fr full skip offset [] = pure []
body_loop resolver max_depth rec fr full (suc k) offset (c ∷ s) =
    body_loop resolver max_depth rec fr full k (offset + 1) s
body_loop resolver max_depth rec fr full zero offset (c ∷ s) =
    body_step resolver max_depth rec fr full offset c s >>= λ r.
    body_loop resolver max_depth rec fr full (r.0 - 1) (offset + 1) s >>= λ rest. pure (r.1 ++ rest)

unfoldable pub expand_body : Resolver → ℕ → ℕ → Rec
expand_body resolver max_depth zero fr body cache = none
expand_body resolver max_depth (suc fuel) fr body cache =
    body_loop resolver max_depth (expand_body resolver max_depth fuel) fr body 0 0 body cache

abbrev pub top : Frame
top = record { args = []; in_template = none; stack = []; depth = 0; root_site = none }

-- what is left of a run when the cache is dropped
abbrev pub output : Option (Text × Cache) → Option Text
output none = none
output (some (out, cache)) = some out

-- `expand`, with fuel for the nested calls of `expand_body`
unfoldable pub expand : ℕ → Text → Resolver → ℕ → Option Text
expand fuel source resolver max_depth = output (expand_body resolver max_depth fuel top source [])
