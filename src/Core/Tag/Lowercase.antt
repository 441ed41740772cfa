-- ===== src/Core/Tag/Lowercase.antt =====
-- `Tag.new` does not depend on the case of its input.
use thewiki.Prelude.{◌≡◌, refl, ap, ap₂, ◌∙◌, ℕ, ◌+◌, Bool, [], ◌∷◌, arith}
use thewiki.Prelude.Text.{Text, len, len_utf8, text_eq}
use thewiki.Prelude.Result.{ok}
use thewiki.Core.Validation.{validate}
use thewiki.Core.Validation.Accepts.{validate-accepts}
use thewiki.Core.Tag.{lower_char, to_ascii_lowercase, new}

lower_char_idem : (c : ℕ) → lower_char (lower_char c) ≡ lower_char c
lower_char_idem c = ground arith

len_utf8-lower_char : (c : ℕ) → len_utf8 (lower_char c) ≡ len_utf8 c
len_utf8-lower_char c = ground arith

pub to_ascii_lowercase_idem :
    (s : Text) → to_ascii_lowercase (to_ascii_lowercase s) ≡ to_ascii_lowercase s
unfolding to_ascii_lowercase
to_ascii_lowercase_idem [] = refl
to_ascii_lowercase_idem (c ∷ s) = ap₂ (λ d t. d ∷ t) (lower_char_idem c) (to_ascii_lowercase_idem s)

len-to_ascii_lowercase : (s : Text) → len (to_ascii_lowercase s) ≡ len s
unfolding to_ascii_lowercase
len-to_ascii_lowercase [] = refl
len-to_ascii_lowercase (c ∷ s) =
    ap₂ (λ a b. a + b) (len_utf8-lower_char c) (len-to_ascii_lowercase s)

text_eq-to_ascii_lowercase : (s : Text) → text_eq (to_ascii_lowercase s) [] ≡ text_eq s []
unfolding to_ascii_lowercase text_eq
text_eq-to_ascii_lowercase [] = refl
text_eq-to_ascii_lowercase (c ∷ s) = refl

validate-agrees :
    (m : ℕ) (p : ℕ → Bool) (v w s t : Text)
    → text_eq v [] ≡ text_eq w []
    → len v ≡ len w
    → s ≡ t
    → validate m p v s ≡ validate m p w t
unfolding validate
validate-agrees m p v w s t e l q = ap (λ u. validate m p v u) q ∙ rw (e, l)

-- Lowering the case of the input changes nothing: neither the tag nor the error.
new-to_ascii_lowercase : (s : Text) → new (to_ascii_lowercase s) ≡ new s
unfolding new
new-to_ascii_lowercase s =
    validate-agrees _ _ _ _ _ _ (text_eq-to_ascii_lowercase s) (len-to_ascii_lowercase s)
      (to_ascii_lowercase_idem s)

pub new-ok : (s t : Text) → new s ≡ ok t → t ≡ to_ascii_lowercase s
unfolding new
new-ok s t h = let (full, short, fine, q) = (validate-accepts _ _ _ _ t).0 h in q

-- A tag that was accepted is accepted again, as it is.
new_idem : (s t : Text) → new s ≡ ok t → new t ≡ ok t
new_idem s t h = ap new (new-ok s t h) ∙ new-to_ascii_lowercase s ∙ h
