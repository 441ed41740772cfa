-- ===== src/Storage/Tags/Tests.antt =====
-- The completion of a tag, with a LIKE that is computed.
use thewiki.Prelude.{◌≡◌, refl, ℕ, Bool, true, false, ◌&&◌, ◌||◌, [], ◌∷◌}
use thewiki.Prelude.Result.{ok}
use thewiki.Prelude.Tests.{◌==◌, if◌then◌else◌}
use thewiki.Prelude.Text.{Text, codes, text_eq, starts_with}
use thewiki.Core.Validation.{validate}
use thewiki.Core.Tag.{lower_char, to_ascii_lowercase, is_tag_char, new}
use thewiki.Prelude.Lists.{take}
use thewiki.Storage.Schema.{Db}
use thewiki.Storage.Tests.{empty_db}
use thewiki.Storage.Pagination.{clamp_limit}
use thewiki.Storage.Tags.{is_wildcard, escape_like, tags_where, list_all_tags}
use thewiki.Storage.Tags.Prefix.{IsLike, list_all_tags-prefix}
use native.Mathlib.Omega.{arith}

abbrev at_end : Text → Bool
at_end [] = true
at_end (c ∷ t) = false

abbrev any_suffix : (Text → Bool) → Text → Bool
any_suffix f [] = f []
any_suffix f (c ∷ t) = f (c ∷ t) || any_suffix f t

abbrev one : (Text → Bool) → Text → Bool
one f [] = false
one f (c ∷ t) = f t

abbrev same : ℕ → (Text → Bool) → Text → Bool
same c f [] = false
same c f (d ∷ t) = lower_char c == lower_char d && f t

abbrev special : ℕ → (Text → Bool) → Text → Bool
special c f t = if c == b'%' then any_suffix f t else if c == b'_' then one f t else same c f t

abbrev like : Text → Text → Bool
like [] t = at_end t
like (c ∷ []) t = special c at_end t
like (c ∷ d ∷ p) t =
    let after = same d (like p) t in
    let next = special c (like (d ∷ p)) t in if c == b'\\' then after else next

any_suffix-at_end : (t : Text) → any_suffix at_end t ≡ true
any_suffix-at_end [] = refl
any_suffix-at_end (c ∷ t) = any_suffix-at_end t

like-literal :
    (c d : ℕ) (p t : Text)
    → is_wildcard c ≡ false
    → like (c ∷ p) (d ∷ t) ≡ (lower_char c == lower_char d && like p t)
like-literal c d [] t h = ground arith
like-literal c d (e ∷ p) t h = ground arith

like-literal_end : (c : ℕ) (p : Text) → is_wildcard c ≡ false → like (c ∷ p) [] ≡ false
like-literal_end c [] h = ground arith
like-literal_end c (e ∷ p) h = ground arith

like-IsLike : IsLike like
like-IsLike = record {
  rest = any_suffix-at_end;
  literal = like-literal;
  literal_end = like-literal_end;
  escaped = λ c d p t h. refl;
  escaped_end = λ c p h. refl;
}

abbrev tagged : Db
tagged = record empty_db {
  page_tags =
      (10, codes "c_lang") ∷ (11, codes "c-lang") ∷ (11, codes "css") ∷ (12, codes "c_lang") ∷ [];
}

completion : Unit {0}
unfolding text_eq validate to_ascii_lowercase is_tag_char new clamp_limit escape_like list_all_tags
completion = tt

all_of_c :
    list_all_tags like (codes "C") 0 tagged
    ≡ ok (codes "c-lang" ∷ codes "c_lang" ∷ codes "css" ∷ [])
unfolding completion
all_of_c = refl

-- An underscore is not any character.
underscore : list_all_tags like (codes "c_") 0 tagged ≡ ok (codes "c_lang" ∷ [])
unfolding completion
underscore = refl

list_all_tags-prefix_example :
    list_all_tags like (codes "c_") 5 tagged
    ≡ ok (
        take
          (clamp_limit 5)
          (tags_where (starts_with (to_ascii_lowercase (codes "c_"))) tagged.page_tags))
unfolding completion
list_all_tags-prefix_example =
    list_all_tags-prefix like (codes "c_") 5 tagged like-IsLike (refl, (refl, (refl, (refl, tt))))
