-- ===== src/Core/Validation.antt =====
-- crates/core/src/validation.rs, and the checks that the constructors `new` of the validated
-- strings share, with the alphabet of the handles.
pub mod Accepts
use thewiki.Prelude.{ℕ, Bool, not, ◌&&◌, ◌||◌, [], some, none}
use thewiki.Prelude.Lists.{find}
use thewiki.Prelude.Result.{Result, ok, err}
use thewiki.Prelude.Tests.{◌==◌, ltb, leb, if◌then◌else◌}
use thewiki.Prelude.Text.{Text, text_eq, len}

pub data ValidationError : Type 0 where
  empty : ValidationError
  too_long : (max_bytes actual : ℕ) → ValidationError
  invalid_character : (character : ℕ) → ValidationError

abbrev pub is_ascii_digit : ℕ → Bool
is_ascii_digit c = leb b'0' c && leb c b'9'

abbrev pub is_ascii_lowercase : ℕ → Bool
is_ascii_lowercase c = leb b'a' c && leb c b'z'

abbrev pub is_ascii_uppercase : ℕ → Bool
is_ascii_uppercase c = leb b'A' c && leb c b'Z'

abbrev pub is_ascii_alphanumeric : ℕ → Bool
is_ascii_alphanumeric c = is_ascii_digit c || is_ascii_lowercase c || is_ascii_uppercase c

unfoldable pub is_handle_char : ℕ → Bool
is_handle_char c = is_ascii_alphanumeric c || c == b'_' || c == b'-'

-- `value` is measured, `stored` is searched for a bad character and kept.
unfoldable pub validate : ℕ → (ℕ → Bool) → Text → Text → Result ValidationError Text
validate max_bytes allowed value stored =
    if text_eq value []
    then err empty
    else if ltb max_bytes (len value)
    then err (too_long max_bytes (len value))
    else elim (find (λ c. not (allowed c)) stored) [
      | some bad ↦ err (invalid_character bad)
      | none ↦ ok stored
    ]
