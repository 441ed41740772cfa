-- ===== src/Core/RoleName.antt =====
-- `RoleName` of crates/core/src/role.rs: a role's identifier.
use thewiki.Prelude.{ℕ}
use thewiki.Prelude.Result.{Result}
use thewiki.Prelude.Text.{Text}
use thewiki.Core.Validation.{ValidationError, validate, is_handle_char}

abbrev pub role_name_max_bytes : ℕ
role_name_max_bytes = 64

unfoldable pub new : Text → Result ValidationError Text
new value = validate role_name_max_bytes is_handle_char value value
