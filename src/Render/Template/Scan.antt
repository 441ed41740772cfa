-- ===== src/Render/Template/Scan.antt =====
-- The brace scanners of crates/render/src/template.rs. A loop over an index `i` is a recursion on
-- the text from `i` on; `skip` counts the characters that the last `i += n` still passes over. The
-- `i32` depth is an unbounded integer: it would take 2^31 brace pairs to overflow it.
pub mod Split
pub mod Nesting
pub mod Parts
pub mod Within
use thewiki.Prelude.{ℕ, zero, suc, ◌+◌, Bool, false, Option, none, some, List, [], ◌∷◌, ◌++◌}
use thewiki.Prelude.Tests.{◌==◌, if◌then◌else◌}
use thewiki.Prelude.Lists.{take, drop}
use thewiki.Prelude.Int.{ℤ, pos, suc_ℤ, pred_ℤ, is_zero_ℤ}
use thewiki.Prelude.Text.{Text, starts_with}

abbrev pub open2 : Text
open2 = b'{' ∷ b'{' ∷ []

abbrev pub close2 : Text
close2 = b'}' ∷ b'}' ∷ []

abbrev pub open3 : Text
open3 = b'{' ∷ b'{' ∷ b'{' ∷ []

abbrev pub close3 : Text
close3 = b'}' ∷ b'}' ∷ b'}' ∷ []

-- one more than an offset that was found further on
abbrev pub later : Option ℕ → Option ℕ
later none = none
later (some i) = some (suc i)

unfoldable pub find_matching_triple_close : Text → Option ℕ
find_matching_triple_close [] = none
find_matching_triple_close (c ∷ s) =
    if starts_with close3 (c ∷ s) then some 0 else later (find_matching_triple_close s)

-- What one round of a scanning loop does at the current index: return it, return `None`, or move
-- on by one character and `skip` more, at a new depth.
pub data Move : Type 0 where
  found : Move
  fail : Move
  go : (skip : ℕ) → (depth : ℤ) → Move

-- the branch on `{{{`, which the loops share: pass over it and its `}}}` as a whole
abbrev pub over_triple : ℤ → Option ℕ → Move
over_triple d none = fail
over_triple d (some close) = go (close + 5) d

unfoldable pub find_from : (ℤ → Text → Move) → ℕ → ℤ → Text → Option ℕ
find_from step skip d [] = none
find_from step (suc k) d (c ∷ s) = later (find_from step k d s)
find_from step zero d (c ∷ s) = elim (step d (c ∷ s)) [
  | found ↦ some 0
  | fail ↦ none
  | go k d' ↦ later (find_from step k d' s)
]

unfoldable pub double_close_step : ℤ → Text → Move
double_close_step d s =
    if starts_with open3 s
    then over_triple d (find_matching_triple_close (drop 3 s))
    else if starts_with open2 s
    then go 1 (suc_ℤ d)
    else if starts_with close2 s
    then (if is_zero_ℤ d then found else go 1 (pred_ℤ d))
    else go 0 d

unfoldable pub find_matching_double_close : Text → Option ℕ
find_matching_double_close s = find_from double_close_step 0 (pos 0) s

abbrev pub head_is : ℕ → Text → Bool
head_is d [] = false
head_is d (c ∷ s) = c == d

-- The loops of `find_top_level_equals` and `split_top_level_pipe`, which look for one character.
unfoldable pub top_level_step : ℕ → ℤ → Text → Move
top_level_step target d s =
    if starts_with open3 s
    then over_triple d (find_matching_triple_close (drop 3 s))
    else if starts_with open2 s
    then go 1 (suc_ℤ d)
    else if starts_with close2 s
    then go 1 (pred_ℤ d)
    else if is_zero_ℤ d
    then (if head_is target s then found else go 0 d)
    else go 0 d

unfoldable pub find_top_level_equals : Text → Option ℕ
find_top_level_equals s = find_from (top_level_step b'=') 0 (pos 0) s

abbrev pub cut : Text → Option ℕ → Option (Text × Text)
cut s none = none
cut s (some i) = some (take i s, drop (suc i) s)

unfoldable pub split_top_level_pipe : Text → Option (Text × Text)
split_top_level_pipe s = cut s (find_from (top_level_step b'|') 0 (pos 0) s)

-- What one round of `split_top_level_pipes` does: copy the character and `skip` more to `current`,
-- copy all that is left and stop, or close the current part.
pub data Piece : Type 0 where
  copy : (skip : ℕ) → (depth : ℤ) → Piece
  copy_rest : Piece
  part : Piece

abbrev pub copy_triple : ℤ → Option ℕ → Piece
copy_triple d none = copy_rest
copy_triple d (some close) = copy (close + 5) d

unfoldable pub pipes_step : ℤ → Text → Piece
pipes_step d s =
    if starts_with open3 s
    then copy_triple d (find_matching_triple_close (drop 3 s))
    else if starts_with open2 s
    then copy 1 (suc_ℤ d)
    else if starts_with close2 s
    then copy 1 (pred_ℤ d)
    else if is_zero_ℤ d
    then (if head_is b'|' s then part else copy 0 d)
    else copy 0 d

unfoldable pub split_pipes_from : Text → ℕ → ℤ → Text → List Text
split_pipes_from current skip d [] = current ∷ []
split_pipes_from current (suc k) d (c ∷ s) = split_pipes_from (current ++ c ∷ []) k d s
split_pipes_from current zero d (c ∷ s) = elim (pipes_step d (c ∷ s)) [
  | copy k d' ↦ split_pipes_from (current ++ c ∷ []) k d' s
  | copy_rest ↦ (current ++ c ∷ s) ∷ []
  | part ↦ current ∷ split_pipes_from [] 0 d s
]

unfoldable pub split_top_level_pipes : Text → List Text
split_top_level_pipes s = split_pipes_from [] 0 (pos 0) s
