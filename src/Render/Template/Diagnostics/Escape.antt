-- ===== src/Render/Template/Diagnostics/Escape.antt =====
-- Escaping keeps markup out of a diagnostic, and loses nothing.
use thewiki.Prelude.{ℕ, zero, suc, ◌≡◌, ◌≢◌, refl, ap, ◌∙◌, [], ◌∷◌, ◌++◌, arith}
use thewiki.Prelude.Tests.{if◌then◌else◌}
use thewiki.Prelude.Lists.{All, All-append}
use thewiki.Prelude.Text.{Text, codes, starts_with}
use thewiki.Render.Template.Diagnostics.{escape_char, escape_html}

-- A character that cannot open or close a tag or an attribute value.
abbrev pub IsInert : ℕ → Type 0
IsInert c = (c ≢ b'<') × (c ≢ b'>') × (c ≢ b'"') × (c ≢ 39)

escape_char-IsInert : (ch : ℕ) → All IsInert (escape_char ch)
unfolding escape_char
escape_char-IsInert ch = ground arith

-- Whatever the message, its escaped form has no angle bracket and no quote.
pub escape_html-IsInert : (s : Text) → All IsInert (escape_html s)
unfolding escape_html
escape_html-IsInert [] = tt
escape_html-IsInert (ch ∷ s) =
    All-append IsInert (escape_char ch) (escape_html s) (escape_char-IsInert ch)
      (escape_html-IsInert s)

-- A browser's reading of the five entities: the character that a text begins with, and how many
-- more characters its entity takes.
abbrev pub entity : Text → ℕ × ℕ
entity [] = (0, 0)
entity (c ∷ s) =
    if starts_with (codes "&amp;") (c ∷ s)
    then (b'&', 4)
    else if starts_with (codes "&lt;") (c ∷ s)
    then (b'<', 3)
    else if starts_with (codes "&gt;") (c ∷ s)
    then (b'>', 3)
    else if starts_with (codes "&quot;") (c ∷ s)
    then (b'"', 5)
    else if starts_with (codes "&#39;") (c ∷ s)
    then (39, 4)
    else (c, 0)

pub unescape : ℕ → Text → Text
unescape k [] = []
unescape (suc k) (c ∷ s) = unescape k s
unescape zero (c ∷ s) = let e = entity (c ∷ s) in e.0 ∷ unescape e.1 s

unescape-escape_char : (ch : ℕ) (t : Text) → unescape 0 (escape_char ch ++ t) ≡ ch ∷ unescape 0 t
unfolding unescape escape_char
unescape-escape_char ch t = ground arith

-- Reading the entities back gives the message.
unescape-escape_html : (s : Text) → unescape 0 (escape_html s) ≡ s
unfolding escape_html unescape
unescape-escape_html [] = refl
unescape-escape_html (ch ∷ s) =
    unescape-escape_char ch (escape_html s) ∙ ap (λ t. ch ∷ t) (unescape-escape_html s)
