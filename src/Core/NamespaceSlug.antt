-- ===== src/Core/NamespaceSlug.antt =====
-- `NamespaceSlug` of crates/core/src/namespace.rs: what stands before the colon of a page reference.
use thewiki.Prelude.{ℕ}
use thewiki.Prelude.Result.{Result}
use thewiki.Prelude.Text.{Text}
use thewiki.Core.Validation.{ValidationError, validate, is_handle_char}

abbrev pub namespace_slug_max_bytes : ℕ
namespace_slug_max_bytes = 64

unfoldable pub new : Text → Result ValidationError Text
new value = validate namespace_slug_max_bytes is_handle_char value value
