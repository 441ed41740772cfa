-- ===== src/Api/Admin/Flags.antt =====
-- Permissions as text: `permission_flags`, `format_permissions` and `parse_permissions` of
-- crates/api/src/admin/roles.rs. The text of an error keeps the name that is unknown.
pub mod RoundTrip
use thewiki.Prelude.{
  ◌≡◌, refl, ap, sym, ◌∙◌, ℕ, suc, ◌^◌, ◌<◌, Option, some, none, Bool, true, false, List, [], ◌∷◌,
  ◌++◌, map, inl, inr,
}
use thewiki.Prelude.Lists.{find}
use thewiki.Prelude.Result.{Result, ok, err, and_then}
use thewiki.Prelude.Tests.{if◌then◌else◌, Bool-cases}
use thewiki.Prelude.Text.{
  Text, codes, text_eq, trim, trim_start, trim_end, drop_while, is_whitespace, split,
}
use thewiki.Core.Tag.{to_ascii_lowercase}
use thewiki.Core.Permissions.{union, contains, flags}
use thewiki.Core.Permissions.Bits.{low, union-low, low_all}
use thewiki.Storage.Tables.{filter}
use thewiki.Api.Exec.{ApiError, invalid_input}
use native.Mathlib.Omega.{arith}

abbrev pub Flag : Type 0
Flag = Text × ℕ

abbrev pub held : ℕ → List Flag → List Flag
held p rows = filter (λ f. contains p f.1) rows

abbrev pub permission_flags : ℕ → List Text
permission_flags p = map (λ f. f.0) (held p flags)

abbrev pub join : Text → List Text → Text
join sep [] = []
join sep (part ∷ []) = part
join sep (part ∷ next ∷ parts) = part ++ (sep ++ join sep (next ∷ parts))

abbrev pub format_permissions : ℕ → Text
format_permissions p = join (codes " | ") (permission_flags p)

abbrev pub flag_named : Text → Option Flag
flag_named name = find (λ f. text_eq (to_ascii_lowercase f.0) (to_ascii_lowercase name)) flags

abbrev pub unknown_flag : Text → ApiError
unknown_flag name = invalid_input (codes "unknown permission flag: " ++ name)

abbrev pub add_token : ℕ → Text → Result ApiError ℕ
add_token perms token =
    let trimmed = trim token in
    if text_eq trimmed [] then ok perms else elim (flag_named trimmed) [
      | none ↦ err (unknown_flag trimmed)
      | some flag ↦ ok (union perms flag.1)
    ]

abbrev pub add_tokens : ℕ → List Text → Result ApiError ℕ
add_tokens perms [] = ok perms
add_tokens perms (token ∷ tokens) =
    and_then (add_token perms token) (λ more. add_tokens more tokens)

abbrev pub add_raws : ℕ → List Text → Result ApiError ℕ
add_raws perms [] = ok perms
add_raws perms (raw ∷ raws) =
    and_then (add_tokens perms (split 124 raw)) (λ more. add_raws more raws)

abbrev pub parse_permissions : List Text → Result ApiError ℕ
parse_permissions input = add_raws 0 input
