-- ===== src/Core/Username.antt =====
-- `Username` of crates/core/src/user.rs: a login handle.
use thewiki.Prelude.{ℕ}
use thewiki.Prelude.Result.{Result}
use thewiki.Prelude.Text.{Text}
use thewiki.Core.Validation.{ValidationError, validate, is_handle_char}

abbrev pub username_max_bytes : ℕ
username_max_bytes = 64

unfoldable pub new : Text → Result ValidationError Text
new value = validate username_max_bytes is_handle_char value value
