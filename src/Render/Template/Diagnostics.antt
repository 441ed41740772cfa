-- ===== src/Render/Template/Diagnostics.antt =====
-- Positions, error spans and escaping of crates/render/src/template.rs.
pub mod Escape
use thewiki.Prelude.{ℕ, ◌+◌, Option, none, some, [], ◌∷◌, ◌++◌}
use thewiki.Prelude.Tests.{◌==◌, if◌then◌else◌}
use thewiki.Prelude.Lists.{take}
use thewiki.Prelude.Text.{Text, codes, show}

pub record Site : Type 0 where
  pub line : ℕ
  pub col : ℕ

abbrev pub advance : ℕ → Site → Site
advance ch p =
    if ch == b'\n' then record { line = p.line + 1; col = 1 } else record p { col = p.col + 1 }

unfoldable pub sites : Site → Text → Site
sites p [] = p
sites p (ch ∷ s) = sites (advance ch p) s

-- 1-based; the loop stops at the offset, so it reads the characters before it
unfoldable pub line_col : Text → ℕ → Site
line_col source offset = sites (record { line = 1; col = 1 }) (take offset source)

unfoldable pub escape_char : ℕ → Text
escape_char ch =
    if ch == b'&'
    then codes "&amp;"
    else if ch == b'<'
    then codes "&lt;"
    else if ch == b'>'
    then codes "&gt;"
    else if ch == b'"'
    then codes "&quot;"
    else if ch == 39
    then codes "&#39;"
    else ch ∷ []

unfoldable pub escape_html : Text → Text
escape_html [] = []
escape_html (ch ∷ s) = escape_char ch ++ escape_html s

unfoldable pub render_error : Text → Site → Text
render_error message site =
    codes "<span class=\"template-error\" data-line=\""
    ++ (show site.line
        ++ (codes "\" data-col=\""
            ++ (show site.col
                ++ (codes "\">[template error: " ++ (escape_html message ++ codes "]</span>")))))

-- `rsplit_once(d)`, the second half: what stands behind the last `d`
unfoldable pub after_last : ℕ → Text → Option Text
after_last d [] = none
after_last d (c ∷ s) = elim (after_last d s) [
  | some t ↦ some t
  | none ↦ if c == d then some s else none
]

unfoldable pub short_name : Text → Text
short_name id = elim (after_last b':' id) [ none ↦ id | some n ↦ n ]
