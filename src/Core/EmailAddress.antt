-- ===== src/Core/EmailAddress.antt =====
-- `EmailAddress` of crates/core/src/user.rs; `str::to_lowercase`, which follows Unicode, is a parameter.
use thewiki.Prelude.{not, []}
use thewiki.Prelude.Lists.{any}
use thewiki.Prelude.Result.{Result, ok, err}
use thewiki.Prelude.Tests.{◌==◌, if◌then◌else◌}
use thewiki.Prelude.Text.{Text, text_eq}
use thewiki.Core.Validation.{ValidationError, empty, invalid_character}

unfoldable pub new : (Text → Text) → Text → Result ValidationError Text
new to_lowercase value =
    let lowered = to_lowercase value in
    if text_eq lowered []
    then err empty
    else if not (any (λ c. c == b'@') lowered)
    then err (invalid_character b'@')
    else ok lowered
