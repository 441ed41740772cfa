-- ===== src/Render/Template/Scan/Split.antt =====
-- Splitting at top-level pipes loses nothing.
use thewiki.Prelude.{
  ℕ, zero, suc, ◌≡◌, refl, sym, ap, ◌∙◌, Option, none, some, List, [], ◌∷◌, ◌++◌, append_assoc,
  append-nil, arith,
}
use thewiki.Prelude.Int.{ℤ, pos}
use thewiki.Prelude.Text.{Text}
use thewiki.Render.Template.Scan.{
  Piece, copy, copy_rest, part, copy_triple, find_matching_triple_close, pipes_step,
  split_pipes_from, split_top_level_pipes,
}

-- the parts with a `|` between each two
abbrev pub join_pipes : List Text → Text
join_pipes [] = []
join_pipes (p ∷ []) = p
join_pipes (p ∷ q ∷ ps) = p ++ (b'|' ∷ join_pipes (q ∷ ps))

copy_triple-ne-part : (d : ℤ) (o : Option ℕ) → copy_triple d o ≡ part → ⊥
copy_triple-ne-part d none h = cc
copy_triple-ne-part d (some close) h = cc

part_at_pipe : (d : ℤ) (c : ℕ) (s : Text) → pipes_step d (c ∷ s) ≡ part → c ≡ b'|'
unfolding pipes_step
part_at_pipe d c s h = ground (arith, copy_triple-ne-part d (find_matching_triple_close _))

-- One round of the loop, by what its step does.
split_step_cases :
    (P : List Text → Type 0) (current : Text) (d : ℤ) (c : ℕ) (s : Text)
    → ((k : ℕ) (d' : ℤ) → P (split_pipes_from (current ++ c ∷ []) k d' s))
    → P ((current ++ c ∷ s) ∷ [])
    → (c ≡ b'|' → P (current ∷ split_pipes_from [] zero d s))
    → P (split_pipes_from current zero d (c ∷ s))
unfolding split_pipes_from
split_step_cases P current d c s on_copy on_rest on_part = by_step (pipes_step d (c ∷ s)) refl
  where
    by_step : (m : Piece) → pipes_step d (c ∷ s) ≡ m → P (split_pipes_from current zero d (c ∷ s))
    by_step (copy k d') e = rw (e, split_pipes_from) (on_copy k d')
    by_step copy_rest e = rw (e, split_pipes_from) on_rest
    by_step part e = rw (e, split_pipes_from) (on_part (part_at_pipe d c s e))

abbrev HasHead : List Text → Type 0
HasHead ps = (q : Text) × (qs : List Text) × (ps ≡ q ∷ qs)

-- there is a first part, whatever the text
split_nonempty :
    (current : Text) (k : ℕ) (d : ℤ) (s : Text) → HasHead (split_pipes_from current k d s)
unfolding split_pipes_from
split_nonempty current k d [] = (current, [], refl)
split_nonempty current (suc k) d (c ∷ s) = split_nonempty (current ++ c ∷ []) k d s
split_nonempty current zero d (c ∷ s) =
    split_step_cases HasHead current d c s (λ k d'. split_nonempty (current ++ c ∷ []) k d' s)
      (current ++ c ∷ s, [], refl) (λ _. (current, split_pipes_from [] zero d s, refl))

join_pipes-cons :
    (p : Text) (ps : List Text) → HasHead ps → join_pipes (p ∷ ps) ≡ p ++ (b'|' ∷ join_pipes ps)
join_pipes-cons p ps (q, qs, e) = rw e

join_pipes-split_from :
    (current : Text) (k : ℕ) (d : ℤ) (s : Text)
    → join_pipes (split_pipes_from current k d s) ≡ current ++ s
unfolding split_pipes_from
join_pipes-split_from current k d [] = rw append-nil
join_pipes-split_from current (suc k) d (c ∷ s) =
    join_pipes-split_from (current ++ c ∷ []) k d s ∙ append_assoc current (c ∷ []) s
join_pipes-split_from current zero d (c ∷ s) =
    split_step_cases (λ ps. join_pipes ps ≡ current ++ c ∷ s) current d c s
      (λ k d'. join_pipes-split_from (current ++ c ∷ []) k d' s ∙ append_assoc current (c ∷ []) s)
      refl
      (λ e.
        join_pipes-cons current (split_pipes_from [] zero d s) (split_nonempty [] zero d s)
        ∙ ap (λ t. current ++ t)
            (ap (λ t. b'|' ∷ t) (join_pipes-split_from [] zero d s) ∙ ap (λ x. x ∷ s) (sym e)))

-- The parts of a call, joined by pipes again, are the text between its braces.
pub join_pipes-split : (s : Text) → join_pipes (split_top_level_pipes s) ≡ s
unfolding split_top_level_pipes
join_pipes-split s = join_pipes-split_from [] 0 (pos 0) s
