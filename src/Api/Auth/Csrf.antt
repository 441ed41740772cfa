-- ===== src/Api/Auth/Csrf.antt =====
-- The double-submit check of crates/api/src/auth/csrf.rs.
use thewiki.Prelude.{Option, some, none, Bool, false, ◌&&◌}
use thewiki.Prelude.Result.{Result, ok, err}
use thewiki.Prelude.Tests.{◌==◌, if◌then◌else◌}
use thewiki.Prelude.Text.{Text, len, text_eq}
use thewiki.Api.Auth.{AuthError, csrf_failed}

pub record Cookies : Type 0 where
  pub session : Option Text
  pub csrf : Option Text

abbrev pub tokens_agree : Option Text → Option Text → Bool
tokens_agree none header_value = false
tokens_agree (some cookie_token) none = false
tokens_agree (some cookie_token) (some header_token) =
    len cookie_token == len header_token && text_eq cookie_token header_token

-- Whether the request goes on, by whether its method is a safe one, its cookies and its header.
unfoldable pub csrf_layer : Bool → Cookies → Option Text → Result AuthError (Unit {0})
csrf_layer is_safe cookies header_value = if is_safe then ok tt else elim cookies.session [
  | none ↦ ok tt
  | some session ↦ if tokens_agree cookies.csrf header_value then ok tt else err csrf_failed
]
