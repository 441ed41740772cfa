-- ===== src/Render/Template/Scan/Nesting.antt =====
-- The scanners on well-nested text.
use thewiki.Prelude.{
  ℕ, zero, suc, ◌≡◌, ◌≢◌, refl, ap, ◌∙◌, Option, some, [], ◌∷◌, ◌++◌, append_assoc, arith,
}
use thewiki.Prelude.Lists.{length}
use thewiki.Prelude.Int.{ℤ, pos}
use thewiki.Prelude.Text.{Text}
use thewiki.Render.Template.Scan.{
  go, later, find_from, double_close_step, find_matching_double_close, close2,
}

abbrev pub NoBrace : ℕ → Type 0
NoBrace c = (c ≢ b'{') × (c ≢ b'}')

-- Text whose braces come as calls `{{…}}`, nested as deep as they like; a call begins with a
-- character that is no brace.
pub data Balanced : Text → Type 0 where
  empty : Balanced []
  char : (c : ℕ) {s : Text} → NoBrace c → Balanced s → Balanced (c ∷ s)
  call :
      (c : ℕ) (inner rest : Text)
      → NoBrace c
      → Balanced inner
      → Balanced rest
      → Balanced (b'{' ∷ b'{' ∷ c ∷ (inner ++ (b'}' ∷ b'}' ∷ rest)))

-- an offset that was found behind the characters of a text
abbrev pub behind : Text → Option ℕ → Option ℕ
behind [] o = o
behind (c ∷ s) o = later (behind s o)

behind-append : (s t : Text) (o : Option ℕ) → behind (s ++ t) o ≡ behind s (behind t o)
behind-append [] t o = refl
behind-append (c ∷ s) t o = ap later (behind-append s t o)

behind-zero : (s : Text) → behind s (some 0) ≡ some (length s)
behind-zero [] = refl
behind-zero (c ∷ s) = ap later (behind-zero s)

module _ (n : ℕ) where
  step_char : (c : ℕ) (s : Text) → NoBrace c → double_close_step (pos n) (c ∷ s) ≡ go 0 (pos n)
  unfolding double_close_step
  step_char c s h = ground arith

  step_open :
      (c : ℕ) (s : Text)
      → NoBrace c
      → double_close_step (pos n) (b'{' ∷ b'{' ∷ c ∷ s) ≡ go 1 (pos (suc n))
  unfolding double_close_step
  step_open c s h = ground arith

  step_close : (s : Text) → double_close_step (pos (suc n)) (b'}' ∷ b'}' ∷ s) ≡ go 1 (pos n)
  unfolding double_close_step
  step_close s = refl

module _ (d d' : ℤ) (k : ℕ) where
  scan_step :
      (c : ℕ) (s : Text)
      → double_close_step d (c ∷ s) ≡ go k d'
      → find_from double_close_step zero d (c ∷ s) ≡ later (find_from double_close_step k d' s)
  unfolding find_from
  scan_step c s e = rw (e, find_from)

module _ (n : ℕ) where
  pass_char :
      (c : ℕ) (s : Text)
      → NoBrace c
      → find_from double_close_step zero (pos n) (c ∷ s)
        ≡ later (find_from double_close_step zero (pos n) s)
  pass_char c s h = scan_step (pos n) (pos n) 0 c s (step_char n c s h)

  pass_open :
      (c : ℕ) (s : Text)
      → NoBrace c
      → find_from double_close_step zero (pos n) (b'{' ∷ b'{' ∷ c ∷ s)
        ≡ later (later (later (find_from double_close_step zero (pos (suc n)) s)))
  unfolding find_from
  pass_open c s h =
      scan_step (pos n) (pos (suc n)) 1 b'{' (b'{' ∷ c ∷ s) (step_open n c s h)
      ∙ ap (λ o. later (later o))
          (scan_step (pos (suc n)) (pos (suc n)) 0 c s (step_char (suc n) c s h))

  pass_close :
      (s : Text)
      → find_from double_close_step zero (pos (suc n)) (b'}' ∷ b'}' ∷ s)
        ≡ later (later (find_from double_close_step zero (pos n) s))
  unfolding find_from
  pass_close s = scan_step (pos (suc n)) (pos n) 1 b'}' (b'}' ∷ s) (step_close n s)

-- Well-nested text is passed over, whatever the depth.
pass_over :
    (n : ℕ) {s : Text} (t : Text)
    → Balanced s
    → find_from double_close_step zero (pos n) (s ++ t)
      ≡ behind s (find_from double_close_step zero (pos n) t)
pass_over n t empty = refl
pass_over n t (char c {s} h b) = pass_char n c (s ++ t) h ∙ ap later (pass_over n t b)
pass_over n t (call c inner rest h b b') =
    rw (append_assoc, behind-append)
      (pass_open n c (inner ++ (b'}' ∷ b'}' ∷ (rest ++ t))) h
        ∙ ap (λ o. later (later (later o)))
            (pass_over (suc n) (b'}' ∷ b'}' ∷ (rest ++ t)) b
              ∙ ap (behind inner)
                  (pass_close n (rest ++ t) ∙ ap (λ o. later (later o)) (pass_over n t b'))))

-- Behind an opening `{{`, the close that is found is the one that matches it.
pub find_matching_double_close-Balanced :
    {s : Text} (rest : Text)
    → Balanced s
    → find_matching_double_close (s ++ (close2 ++ rest)) ≡ some (length s)
unfolding find_matching_double_close find_from double_close_step
find_matching_double_close-Balanced {s} rest b = pass_over 0 (close2 ++ rest) b ∙ behind-zero s
