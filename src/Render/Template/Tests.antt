-- ===== src/Render/Template/Tests.antt =====
-- Runs of the scanners and of the expansion, and the properties at concrete inputs.
use mathlib.Core.Option.{some-injective}
use thewiki.Prelude.{inl, inr, subst, [], ◌∷◌, true, arith, ◌≡◌, refl, Option, none, some, ◌++◌}
use thewiki.Prelude.Lists.{All}
use thewiki.Prelude.Tests.{Bool-cases, if◌then◌else◌}
use thewiki.Prelude.Text.{
  Text, codes, text_eq, is_whitespace, drop_while, trim, trim_start, trim_end, split_once, show,
  digits_from,
}
use thewiki.Render.Template.Scan.{
  find_matching_triple_close, find_matching_double_close, find_from, double_close_step,
  top_level_step, find_top_level_equals, split_top_level_pipe, pipes_step, split_pipes_from,
  split_top_level_pipes,
}
use thewiki.Render.Template.Diagnostics.{
  sites, line_col, escape_char, escape_html, render_error, after_last, short_name,
}
use thewiki.Render.Template.Frame.{Resolver, TemplateSource, ◌>>=◌, pure}
use thewiki.Render.Template.Call.{
  lookup_arg, param_parts, param_text, parse_namespace_addressed, parse_argument, cache_get,
  lookup_source, up_to_separator, parser_function_name, missing_message, cycle_message,
  limit_message, bind_args, enter, respond, call_name, call_inner,
}
use thewiki.Render.Template.Expand.{
  param_at, try_param_ref, call_at, try_template_call, triple_branch, double_branch, or_call,
  body_step, body_loop, expand_body, expand,
}
use thewiki.Render.Template.Scan.{close2}
use thewiki.Render.Template.Scan.Split.{join_pipes}
use thewiki.Render.Template.Scan.Nesting.{Balanced, find_matching_double_close-Balanced}
use thewiki.Render.Template.Scan.Parts.{Part, empty, char, call, split-join_pipes}
use thewiki.Render.Template.Scan.Within.{NoTriple}
use thewiki.Render.Template.Diagnostics.Escape.{IsInert, escape_html-IsInert}
use thewiki.Render.Template.Frame.{Frame, Cache}
use thewiki.Render.Template.Expand.{output, top}
use thewiki.Render.Template.Expand.Plain.{occurs, NoTriple-occurs}
use thewiki.Render.Template.Expand.Clean.{CleanResolver}
use thewiki.Render.Template.Expand.Totality.{expand_total}
use thewiki.Render.Template.Expand.Unbound.{IsName, reference, expand_body_unbound}
use thewiki.Render.Template.Expand.Agrees.{IsSound, IsSound-cons}
use thewiki.Render.Template.Expand.Caching.{IsSound-nil, expand_body_cache}

scanning : Unit {0}
unfolding find_matching_triple_close find_matching_double_close find_from double_close_step
    top_level_step find_top_level_equals split_top_level_pipe pipes_step split_pipes_from
    split_top_level_pipes
scanning = tt

texts : Unit {0}
unfolding text_eq is_whitespace drop_while trim trim_start trim_end split_once show digits_from
    sites line_col escape_char escape_html render_error after_last short_name
texts = tt

expanding : Unit {0}
unfolding scanning texts ◌>>=◌ pure lookup_arg param_parts param_text parse_namespace_addressed
    parse_argument cache_get lookup_source up_to_separator parser_function_name missing_message
    cycle_message limit_message bind_args enter respond call_name call_inner param_at try_param_ref
    call_at try_template_call triple_branch double_branch or_call body_step body_loop expand_body
    expand
expanding = tt

abbrev source_of : Text → Text → Option TemplateSource
source_of name body =
    some (record { id = codes "Template:" ++ name; revision_id = codes "r1"; body = body })

-- a store with `Greet`, `Loop` and `Two`
abbrev greet : Resolver
greet = record {
  resolve = λ ns name.
      if text_eq name (codes "Greet")
      then source_of name (codes "Hello, {{{1}}}{{{2|!}}}")
      else if text_eq name (codes "Loop")
      then source_of name (codes "x{{Loop}}")
      else none;
  namespace_exists = λ ns. text_eq ns (codes "Template");
}

expand_tests :
    (expand 5 (codes "a {{Greet|{{Greet|b}}}} {{{1}}}") greet 20
      ≡ some (codes "a Hello, Hello, b!! {{{1}}}"))
    × (expand 5 (codes "{{Loop}}") greet 20
        ≡ some (
            codes
              "x<span class=\"template-error\" data-line=\"1\" data-col=\"1\">[template error: transclusion cycle detected at Loop -&gt; Loop]</span>"))
    × (expand 5 (codes "\n{{No}}") greet 20
        ≡ some (
            codes
              "\n<span class=\"template-error\" data-line=\"2\" data-col=\"1\">[template error: template `Template:No` not found]</span>"))
unfolding expanding
expand_tests = (refl, refl, refl)

-- templates without parameter references: `Card` calls `Box` with an argument
abbrev cards : Resolver
cards = record {
  resolve = λ ns name.
      if text_eq name (codes "Card") then source_of name (codes "<{{Box|{{Card}}}}>") else none;
  namespace_exists = λ ns. true;
}

cards-clean : CleanResolver cards
unfolding texts occurs
cards-clean ns name src e = elim (Bool-cases (text_eq name (codes "Card"))) [
  | inl same ↦
      let known = rw same at e in
      subst (λ (r : TemplateSource). NoTriple r.body) (some-injective _ _ known)
        (NoTriple-occurs (codes "<{{Box|{{Card}}}}>") refl)
  | inr other ↦ let missing = rw other at e in absurd (cc missing)
]

abbrev card_page : Text
card_page = codes "a {{Card}} b"

card_page-NoTriple : NoTriple card_page
unfolding occurs
card_page-NoTriple = NoTriple-occurs card_page refl

expand_total_example : (out : Text) × (expand 4 card_page cards 3 ≡ some out)
expand_total_example = expand_total card_page cards 3 cards-clean card_page-NoTriple

-- A template whose body is `hi {{{who}}}`, called with no argument.
abbrev greeting_frame : Frame
greeting_frame = record {
  args = [];
  in_template = some (codes "Greeting");
  stack = codes "Template:Greeting" ∷ [];
  depth = 1;
  root_site = none;
}

who-IsName : IsName (codes "who")
unfolding texts
who-IsName = record { plain = omega arith; trimmed = refl }

expand_body_unbound_example :
    expand_body greet 20 1000 greeting_frame
      (codes "hi " ++ (reference (codes "who") ++ codes "!"))
      []
    ≡ none
unfolding lookup_arg
expand_body_unbound_example =
    expand_body_unbound greet 20 (codes "who") who-IsName 1000 greeting_frame (codes "hi ")
      (codes "!") [] refl refl (omega arith)

-- The same from a page: one call of the template is enough.
abbrev greeting : Resolver
greeting = record {
  resolve = λ ns name. source_of name (codes "hi {{{who}}}");
  namespace_exists = λ ns. true;
}

abbrev warm_cache : Cache
warm_cache =
    (
      (codes "Template", codes "Card"),
      record {
        id = codes "Template:Card";
        revision_id = codes "r1";
        body = codes "<{{Box|{{Card}}}}>";
      },
    )
    ∷ []

warm_cache-IsSound : IsSound cards warm_cache
unfolding text_eq
warm_cache-IsSound = IsSound-cons cards _ _ [] (IsSound-nil cards) refl

expand_body_cache_example :
    output (expand_body cards 3 4 top card_page warm_cache)
    ≡ output (expand_body cards 3 4 top card_page [])
expand_body_cache_example = expand_body_cache cards 3 4 top card_page warm_cache warm_cache-IsSound

-- `{{B|c}}`
abbrev nested_part : Text
nested_part = codes "{{B|c}}"

nested_part-Part : Part nested_part
nested_part-Part =
    call b'B' (codes "|c") [] (omega arith)
      (Balanced.char b'|' (omega arith) (Balanced.char b'c' (omega arith) Balanced.empty)) empty

nested_part-Balanced : Balanced nested_part
nested_part-Balanced =
    Balanced.call b'B' (codes "|c") [] (omega arith)
      (Balanced.char b'|' (omega arith) (Balanced.char b'c' (omega arith) Balanced.empty))
      Balanced.empty

split-join_pipes_example :
    split_top_level_pipes (join_pipes (codes "A" ∷ nested_part ∷ [])) ≡ codes "A" ∷ nested_part ∷ []
split-join_pipes_example =
    split-join_pipes (codes "A") (nested_part ∷ []) (char b'A' (omega arith) (omega arith) empty)
      (nested_part-Part, tt)

find_matching_double_close-Balanced_example :
    find_matching_double_close (nested_part ++ (close2 ++ codes "}} tail")) ≡ some 7
find_matching_double_close-Balanced_example =
    find_matching_double_close-Balanced (codes "}} tail") nested_part-Balanced

escape_html-IsInert_example : All IsInert (escape_html (codes "<b a='1'>&\""))
escape_html-IsInert_example = escape_html-IsInert (codes "<b a='1'>&\"")
