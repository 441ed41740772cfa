-- ===== src/Core/Tests.antt =====
-- The validated strings at concrete inputs.
use thewiki.Prelude.{◌≡◌, refl}
use thewiki.Prelude.Result.{ok, err}
use thewiki.Prelude.Text.{codes, text_eq}
use thewiki.Core.Validation.{validate, is_handle_char, invalid_character}
use thewiki.Core.Username.{new as username, username_max_bytes}
use thewiki.Core.Tag.{new as tag, is_tag_char, to_ascii_lowercase}

validating : Unit {0}
unfolding text_eq validate is_handle_char username tag is_tag_char to_ascii_lowercase
validating = tt

bad_handle :
    validate username_max_bytes is_handle_char (codes "a b") (codes "a b")
    ≡ err (invalid_character b' ')
unfolding validating
bad_handle = refl

lowered : tag (codes "Rust-Lang_2024") ≡ ok (codes "rust-lang_2024")
unfolding validating
lowered = refl
