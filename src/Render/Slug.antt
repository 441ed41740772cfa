-- ===== src/Render/Slug.antt =====
-- `slugify` of crates/render/src/slug.rs, the id of a heading. The buffer `out` holds its last
-- character first.
pub mod Allocator
pub mod Shape
pub mod Tests
use thewiki.Prelude.{ℕ, ◌+◌, Option, some, none, Bool, true, false, not, ◌&&◌, ◌||◌, List, [], ◌∷◌}
use thewiki.Prelude.Tests.{◌==◌, leb, if◌then◌else◌}
use thewiki.Prelude.Text.{Text, codes, is_whitespace}
use mathlib.Core.List.{reverse}

abbrev pub is_upper : ℕ → Bool
is_upper c = leb 65 c && leb c 90

-- A digit or a lowercase letter.
abbrev pub is_letter : ℕ → Bool
is_letter c = leb 48 c && leb c 57 || leb 97 c && leb c 122

unfoldable pub mapped : ℕ → Option ℕ
mapped ch =
    if is_letter ch || is_upper ch
    then some (if is_upper ch then ch + 32 else ch)
    else if is_whitespace ch || (ch == 45 || ch == 95)
    then some 45
    else none

-- `prev_dash` and `out`
pub record Buffer : Type 0 where
  pub prev_dash : Bool
  pub out : List ℕ

abbrev pub is_empty : List ℕ → Bool
is_empty [] = true
is_empty (c ∷ s) = false

abbrev pub push_dash : Buffer → Buffer
push_dash b =
    if not b.prev_dash && not (is_empty b.out)
    then record { prev_dash = true; out = 45 ∷ b.out }
    else b

abbrev pub push : Option ℕ → Buffer → Buffer
push none b = b
push (some c) b = if c == 45 then push_dash b else record { prev_dash = false; out = c ∷ b.out }

abbrev pub push_all : Text → Buffer → Buffer
push_all [] b = b
push_all (ch ∷ input) b = push_all input (push (mapped ch) b)

abbrev pub pop_dashes : List ℕ → List ℕ
pop_dashes [] = []
pop_dashes (c ∷ out) = let rest = pop_dashes out in if c == 45 then rest else c ∷ out

abbrev pub start : Buffer
start = record { prev_dash = false; out = [] }

abbrev pub or_section : Text → Text
or_section [] = codes "section"
or_section (c ∷ out) = c ∷ out

unfoldable pub slugify : Text → Text
slugify input = or_section (reverse (pop_dashes (push_all input start).out))
