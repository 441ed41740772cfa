-- ===== src/Core/Tag.antt =====
-- `Tag` of crates/core/src/tag.rs: a page's tag, stored in lowercase.
pub mod Lowercase
use thewiki.Prelude.{ℕ, ◌+◌, Bool, ◌||◌, map}
use thewiki.Prelude.Result.{Result}
use thewiki.Prelude.Tests.{◌==◌, if◌then◌else◌}
use thewiki.Prelude.Text.{Text}
use thewiki.Core.Validation.{
  ValidationError, validate, is_ascii_lowercase, is_ascii_uppercase, is_ascii_digit,
}

abbrev pub tag_max_bytes : ℕ
tag_max_bytes = 32

abbrev pub lower_char : ℕ → ℕ
lower_char c = if is_ascii_uppercase c then c + 32 else c

unfoldable pub to_ascii_lowercase : Text → Text
to_ascii_lowercase s = map lower_char s

unfoldable pub is_tag_char : ℕ → Bool
is_tag_char c = is_ascii_lowercase c || is_ascii_digit c || c == b'-' || c == b'_'

unfoldable pub new : Text → Result ValidationError Text
new value = validate tag_max_bytes is_tag_char value (to_ascii_lowercase value)
