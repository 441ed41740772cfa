-- ===== src/Render/Template/Scan/Parts.antt =====
-- A call whose parts are well nested is split into these parts again.
use thewiki.Prelude.{
  ℕ, zero, suc, ◌≡◌, ◌≢◌, refl, sym, ap, ◌∙◌, List, [], ◌∷◌, ◌++◌, append_assoc, append-nil, arith,
}
use thewiki.Prelude.Lists.{All}
use thewiki.Prelude.Int.{ℤ, pos}
use thewiki.Prelude.Text.{Text}
use thewiki.Render.Template.Scan.{copy, pipes_step, split_pipes_from, split_top_level_pipes}
use thewiki.Render.Template.Scan.Split.{join_pipes}
use thewiki.Render.Template.Scan.Nesting.{NoBrace, Balanced}

-- Well-nested text with no pipe outside its calls.
pub data Part : Text → Type 0 where
  empty : Part []
  char : (c : ℕ) {s : Text} → NoBrace c → c ≢ b'|' → Part s → Part (c ∷ s)
  call :
      (c : ℕ) (inner rest : Text)
      → NoBrace c
      → Balanced inner
      → Part rest
      → Part (b'{' ∷ b'{' ∷ c ∷ (inner ++ (b'}' ∷ b'}' ∷ rest)))

char_below :
    (n c : ℕ) (s : Text) → NoBrace c → pipes_step (pos (suc n)) (c ∷ s) ≡ copy 0 (pos (suc n))
unfolding pipes_step
char_below n c s h = ground arith

char_top : (c : ℕ) (s : Text) → NoBrace c → c ≢ b'|' → pipes_step (pos 0) (c ∷ s) ≡ copy 0 (pos 0)
unfolding pipes_step
char_top c s h p = ground arith

open_call :
    (n c : ℕ) (s : Text)
    → NoBrace c
    → pipes_step (pos n) (b'{' ∷ b'{' ∷ c ∷ s) ≡ copy 1 (pos (suc n))
unfolding pipes_step
open_call n c s h = ground arith

close_call : (n : ℕ) (s : Text) → pipes_step (pos (suc n)) (b'}' ∷ b'}' ∷ s) ≡ copy 1 (pos n)
unfolding pipes_step
close_call n s = refl

module _ (current : Text) (d d' : ℤ) (k c : ℕ) (s : Text) where
  copy_step :
      pipes_step d (c ∷ s) ≡ copy k d'
      → split_pipes_from current zero d (c ∷ s) ≡ split_pipes_from (current ++ c ∷ []) k d' s
  unfolding split_pipes_from
  copy_step e = rw (e, split_pipes_from)

copy_open :
    (current : Text) (n c : ℕ) (s : Text)
    → NoBrace c
    → split_pipes_from current zero (pos n) (b'{' ∷ b'{' ∷ c ∷ s)
      ≡ split_pipes_from (current ++ b'{' ∷ b'{' ∷ c ∷ []) zero (pos (suc n)) s
unfolding split_pipes_from
copy_open current n c s h =
    copy_step current (pos n) (pos (suc n)) 1 b'{' (b'{' ∷ c ∷ s) (open_call n c s h)
    ∙ copy_step _ (pos (suc n)) (pos (suc n)) 0 c s (char_below n c s h)
    ∙ ap (λ t. split_pipes_from t zero (pos (suc n)) s) (simp append_assoc)

copy_close :
    (current : Text) (n : ℕ) (s : Text)
    → split_pipes_from current zero (pos (suc n)) (b'}' ∷ b'}' ∷ s)
      ≡ split_pipes_from (current ++ b'}' ∷ b'}' ∷ []) zero (pos n) s
unfolding split_pipes_from
copy_close current n s =
    copy_step current (pos (suc n)) (pos n) 1 b'}' (b'}' ∷ s) (close_call n s)
    ∙ ap (λ t. split_pipes_from t zero (pos n) s) (simp append_assoc)

-- What is copied below the top level ends up in the current part, pipes included.
copy-Balanced :
    (current : Text) (n : ℕ) {s : Text} (t : Text)
    → Balanced s
    → split_pipes_from current zero (pos (suc n)) (s ++ t)
      ≡ split_pipes_from (current ++ s) zero (pos (suc n)) t
copy-Balanced current n t Balanced.empty = rw append-nil
copy-Balanced current n t (Balanced.char c {s} h b) =
    copy_step current (pos (suc n)) (pos (suc n)) 0 c (s ++ t) (char_below n c (s ++ t) h)
    ∙ copy-Balanced (current ++ c ∷ []) n t b
    ∙ ap (λ u. split_pipes_from u zero (pos (suc n)) t) (append_assoc current (c ∷ []) s)
copy-Balanced current n t (Balanced.call c inner rest h b b') = rw append_assoc (
    copy_open current (suc n) c (inner ++ (b'}' ∷ b'}' ∷ (rest ++ t))) h
    ∙ copy-Balanced _ (suc n) (b'}' ∷ b'}' ∷ (rest ++ t)) b
    ∙ copy_close _ (suc n) (rest ++ t)
    ∙ copy-Balanced _ n t b'
    ∙ ap (λ u. split_pipes_from u zero (pos (suc n)) t) (simp append_assoc))

copy-Part :
    (current : Text) {s : Text} (t : Text)
    → Part s
    → split_pipes_from current zero (pos 0) (s ++ t)
      ≡ split_pipes_from (current ++ s) zero (pos 0) t
copy-Part current t empty = rw append-nil
copy-Part current t (char c {s} h p b) =
    copy_step current (pos 0) (pos 0) 0 c (s ++ t) (char_top c (s ++ t) h p)
    ∙ copy-Part (current ++ c ∷ []) t b
    ∙ ap (λ u. split_pipes_from u zero (pos 0) t) (append_assoc current (c ∷ []) s)
copy-Part current t (call c inner rest h b b') = rw append_assoc (
    copy_open current 0 c (inner ++ (b'}' ∷ b'}' ∷ (rest ++ t))) h
    ∙ copy-Balanced _ 0 (b'}' ∷ b'}' ∷ (rest ++ t)) b
    ∙ copy_close _ 0 (rest ++ t)
    ∙ copy-Part _ t b'
    ∙ ap (λ u. split_pipes_from u zero (pos 0) t) (simp append_assoc))

split_pipe :
    (current s : Text)
    → split_pipes_from current zero (pos 0) (b'|' ∷ s)
      ≡ current ∷ split_pipes_from [] zero (pos 0) s
unfolding split_pipes_from pipes_step
split_pipe current s = refl

split_from-join_pipes :
    (p : Text) (ps : List Text)
    → Part p
    → All Part ps
    → split_pipes_from [] zero (pos 0) (join_pipes (p ∷ ps)) ≡ p ∷ ps
unfolding split_pipes_from
split_from-join_pipes p [] h hs =
    ap (λ t. split_pipes_from [] zero (pos 0) t) (sym (append-nil p)) ∙ copy-Part [] [] h
split_from-join_pipes p (q ∷ ps) h (hq, hs) =
    copy-Part [] (b'|' ∷ join_pipes (q ∷ ps)) h
    ∙ split_pipe p (join_pipes (q ∷ ps))
    ∙ ap (λ ts. p ∷ ts) (split_from-join_pipes q ps hq hs)

-- Parts that are well nested and hold no pipe outside their calls come back from their join.
pub split-join_pipes :
    (p : Text) (ps : List Text)
    → Part p
    → All Part ps
    → split_top_level_pipes (join_pipes (p ∷ ps)) ≡ p ∷ ps
unfolding split_top_level_pipes
split-join_pipes p ps h hs = split_from-join_pipes p ps h hs
