-- ===== src/Render/Template/Call.antt =====
-- One `{{…}}` call of crates/render/src/template.rs: names, arguments, the cached lookup, the cycle
-- and depth checks, and the diagnostics.
use thewiki.Prelude.{
  ℕ, ◌+◌, ◌%◌, ◌^◌, Bool, not, ◌&&◌, ◌||◌, Option, none, some, true, false, List, [], ◌∷◌, ◌++◌,
  map,
}
use thewiki.Prelude.Tests.{◌==◌, ltb, if◌then◌else◌}
use thewiki.Prelude.Lists.{find, any}
use thewiki.Prelude.Text.{
  Text, codes, starts_with, text_eq, drop_while, trim, trim_start, split_once, show,
}
use thewiki.Render.Template.Scan.{
  open3, find_top_level_equals, split_top_level_pipe, split_top_level_pipes, cut,
}
use thewiki.Render.Template.Diagnostics.{Site, render_error, short_name}
use thewiki.Render.Template.Frame.{
  TemplateSource, Resolver, Arg, Cache, Run, ◌>>=◌, pure, Frame, Rec, or_else,
}

abbrev pub template_namespace : Text
template_namespace = codes "Template"

unfoldable pub lookup_arg : Text → List Arg → Option Text
lookup_arg name args = elim (find (λ a. text_eq a.name name) args) [
  | none ↦ none
  | some a ↦ some a.value
]

abbrev pub name_and_default : Text → Option (Text × Text) → Text × Option Text
name_and_default inner none = (trim inner, none)
name_and_default inner (some p) = (trim p.0, some p.1)

-- the name of a parameter reference, and its default
unfoldable pub param_parts : Text → Text × Option Text
param_parts inner = name_and_default inner (split_top_level_pipe inner)

abbrev pub default_or_literal : Text → Option Text → Text
default_or_literal name (some d) = d
default_or_literal name none = open3 ++ (name ++ codes "}}}")

-- the text that replaces a parameter reference, before it is itself expanded
unfoldable pub param_text : List Arg → Text × Option Text → Text
param_text args (name, default) = elim (lookup_arg name args) [
  | some v ↦ v
  | none ↦ default_or_literal name default
]

unfoldable pub parse_namespace_addressed : Text → Text × Text
parse_namespace_addressed raw = elim (split_once b':' raw) [
  | some p ↦ (trim p.0, trim p.1)
  | none ↦ (template_namespace, trim raw)
]

-- `positional_index` is a `u32`; the second result is its new value.
unfoldable pub parse_argument : Text → ℕ → Arg × ℕ
parse_argument raw positional_index = elim (cut raw (find_top_level_equals raw)) [
  | some p ↦ (record { name = trim p.0; value = p.1 }, positional_index)
  | none ↦ (record { name = show positional_index; value = raw }, (positional_index + 1) % 2 ^ 32)
]

abbrev pub key_eq : Text × Text → Text × Text → Bool
key_eq a b = text_eq a.0 b.0 && text_eq a.1 b.1

unfoldable pub cache_get : Text × Text → Cache → Option TemplateSource
cache_get key [] = none
cache_get key ((k, src) ∷ cache) = elim (key_eq k key) [
  | true ↦ some src
  | false ↦ cache_get key cache
]

-- the cached source, or the resolver's, which is then cached
unfoldable pub lookup_source : Resolver → Text × Text → Run (Option TemplateSource)
lookup_source resolver key cache = elim (cache_get key cache) [
  | some src ↦ some (some src, cache)
  | none ↦ elim (resolver.resolve key.0 key.1) [
    | some src ↦ some (some src, (key, src) ∷ cache)
    | none ↦ some (none, cache)
  ]
]

-- the text before the first `:` or `|`, the first part of `split([':', '|'])`
unfoldable pub up_to_separator : Text → Text
up_to_separator [] = []
up_to_separator (c ∷ s) = if c == b':' || c == b'|' then [] else c ∷ up_to_separator s

unfoldable pub parser_function_name : Text → Text
parser_function_name trimmed = trim (up_to_separator (drop_while (λ c. c == b'#') trimmed))

abbrev pub contains : List Text → Text → Bool
contains stack id = any (λ s. text_eq s id) stack

abbrev join_chain : List Text → Text → Text
join_chain [] last = last
join_chain (s ∷ stack) last = s ++ (codes " -> " ++ join_chain stack last)

abbrev contains_char : ℕ → Text → Bool
contains_char d s = any (λ c. c == d) s

-- The message for a name that the resolver does not know.
unfoldable pub missing_message : Resolver → Text → Text × Text → Text
missing_message resolver raw_name (ns, name) =
    if contains_char b':' raw_name && not (resolver.namespace_exists ns)
    then codes "unknown namespace `" ++ (ns ++ codes "`")
    else codes "template `" ++ (ns ++ (codes ":" ++ (name ++ codes "` not found")))

unfoldable pub cycle_message : List Text → Text → Text
cycle_message stack id =
    codes "transclusion cycle detected at " ++ join_chain (map short_name stack) (short_name id)

unfoldable pub limit_message : ℕ → Text
limit_message max_depth = codes "recursion limit exceeded (" ++ (show max_depth ++ codes ")")

-- the loop over the argument texts, each expanded in the caller's scope
unfoldable pub bind_args : (Text → Run Text) → List Text → ℕ → Run (List Arg)
bind_args expand_arg [] index = pure []
bind_args expand_arg (raw ∷ raws) index =
    let parsed = parse_argument raw index in
    expand_arg parsed.0.value >>= λ expanded. bind_args expand_arg raws parsed.1 >>= λ bound.
    pure (record { name = parsed.0.name; value = trim expanded } ∷ bound)

-- From the resolved source on: the cycle check, the depth check, the arguments, the body.
unfoldable pub enter : ℕ → Rec → Frame → Site → Text → List Text → TemplateSource → Run Text
enter max_depth rec fr site name raw_args src =
    if contains fr.stack src.id
    then pure (render_error (cycle_message fr.stack src.id) site)
    else if ltb max_depth (fr.depth + 1)
    then pure (render_error (limit_message max_depth) site)
    else bind_args
        (rec (record fr {
          in_template = some (codes "<arg>");
          depth = fr.depth + 1;
          root_site = some (or_else fr.root_site site);
        }))
        raw_args 1
      >>= λ bound.
          rec
            (record {
              args = bound;
              in_template = some name;
              stack = fr.stack ++ src.id ∷ [];
              depth = fr.depth + 1;
              root_site = some (or_else fr.root_site site);
            })
            src.body

-- a call's name and arguments
unfoldable pub call_name : List Text → Text
call_name [] = []
call_name (p ∷ ps) = trim p

abbrev pub call_args : List Text → List Text
call_args [] = []
call_args (p ∷ ps) = ps

-- from the looked-up source on
unfoldable pub respond :
    Resolver → ℕ → Rec → Frame → Site → List Text → Option TemplateSource → Run (Option Text)
respond resolver max_depth rec fr site parts none =
    let raw_name = call_name parts in
    pure (
      some (
        render_error (missing_message resolver raw_name (parse_namespace_addressed raw_name)) site))
respond resolver max_depth rec fr site parts (some src) =
    let key = parse_namespace_addressed (call_name parts) in
    enter max_depth rec fr site key.1 (call_args parts) src >>= λ out. pure (some out)

abbrev pub parser_function_message : Text → Text
parser_function_message inner =
    codes "parser function '#"
    ++ (parser_function_name (trim_start inner) ++ codes "' is not supported in v1")

-- `inner` is what stands between the braces.
unfoldable pub call_inner : Resolver → ℕ → Rec → Frame → Site → Text → Run (Option Text)
call_inner resolver max_depth rec fr site inner =
    let parts = split_top_level_pipes inner in
    if starts_with (b'#' ∷ []) (trim_start inner)
    then pure (some (render_error (parser_function_message inner) site))
    else if text_eq (call_name parts) []
    then pure none
    else lookup_source resolver (parse_namespace_addressed (call_name parts))
      >>= respond resolver max_depth rec fr site parts
