-- ===== src/Render/Template/Scan/Within.antt =====
-- Texts inside other texts, and texts without `{{{`.
use thewiki.Prelude.{
  ℕ, ◌≡◌, refl, sym, ap, ◌∙◌, Bool, true, false, List, [], ◌∷◌, ◌++◌, append_assoc, append-nil,
  arith,
}
use thewiki.Prelude.Lists.{All, take, drop, take-append-drop}
use thewiki.Prelude.Text.{Text, starts_with}
use thewiki.Render.Template.Scan.{open3, split_top_level_pipes}
use thewiki.Render.Template.Scan.Split.{join_pipes, join_pipes-split}

-- `x` stands somewhere in `s`
pub record Within (x s : Text) : Type 0 where
  pub before : Text
  pub after : Text
  pub same : s ≡ before ++ (x ++ after)

pub Within-trans : {x y z : Text} → Within x y → Within y z → Within x z
Within-trans {x} {y} {z} p q = record {
  before = q.before ++ p.before;
  after = p.after ++ q.after;
  same = q.same ∙ ap (λ t. q.before ++ (t ++ q.after)) p.same ∙ simp append_assoc;
}

pub take-Within : (n : ℕ) (s : Text) → Within (take n s) s
take-Within n s = record { before = []; after = drop n s; same = sym (take-append-drop n s) }

pub drop-Within : (n : ℕ) (s : Text) → Within (drop n s) s
drop-Within n s = record {
  before = take n s;
  after = [];
  same = sym (take-append-drop n s) ∙ ap (λ t. take n s ++ t) (sym (append-nil (drop n s)));
}

pub tail-Within : (c : ℕ) (s : Text) → Within s (c ∷ s)
tail-Within c s = record { before = c ∷ []; after = []; same = simp append-nil }

part-Within :
    (p : Text) (ps : List Text) {s : Text}
    → Within (join_pipes (p ∷ ps)) s
    → All (λ x. Within x s) (p ∷ ps)
part-Within p [] w = (w, tt)
part-Within p (q ∷ ps) w = (
  Within-trans (record { before = []; after = b'|' ∷ join_pipes (q ∷ ps); same = refl }) w,
  part-Within q ps (
      Within-trans
        (record { before = p ++ b'|' ∷ []; after = []; same = simp (append_assoc, append-nil) }) w),
)

parts-Within : (ps : List Text) {s : Text} → Within (join_pipes ps) s → All (λ x. Within x s) ps
parts-Within [] w = tt
parts-Within (p ∷ ps) w = part-Within p ps w

-- Every part of a split stands in what was split.
pub split-Within : (s : Text) → All (λ x. Within x s) (split_top_level_pipes s)
split-Within s =
    parts-Within (split_top_level_pipes s)
      (record { before = []; after = []; same = sym (join_pipes-split s) ∙ sym (append-nil _) })

-- No parameter reference can begin in `s`.
pub record NoTriple (s : Text) : Type 0 where
  pub absent : Within open3 s → ⊥

pub NoTriple-Within : {x s : Text} → Within x s → NoTriple s → NoTriple x
NoTriple-Within w h = record { absent = λ v. h.absent (Within-trans v w) }

starts_with-open3 : (s : Text) → starts_with open3 s ≡ true → (t : Text) × (s ≡ open3 ++ t)
starts_with-open3 [] h = cc
starts_with-open3 (a ∷ []) h = absurd (ground arith)
starts_with-open3 (a ∷ b ∷ []) h = absurd (ground arith)
starts_with-open3 (a ∷ b ∷ c ∷ t) h = (t, ground arith)

pub NoTriple-starts_with : (s : Text) → NoTriple s → starts_with open3 s ≡ false
NoTriple-starts_with s h = by_test (starts_with open3 s) refl
  where
    by_test : (b : Bool) → starts_with open3 s ≡ b → starts_with open3 s ≡ false
    by_test false e = e
    by_test true e =
        let (t, same) = starts_with-open3 s e in
        absurd (h.absent (record { before = []; after = t; same = same }))
