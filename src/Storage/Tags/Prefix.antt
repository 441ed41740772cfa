-- ===== src/Storage/Tags/Prefix.antt =====
-- That a prefix typed by a user is matched as it stands, whatever characters it has.
use thewiki.Prelude.{
  ◌≡◌, refl, ap, ap₂, sym, ◌∙◌, ℕ, zero, suc, Bool, true, false, ◌&&◌, List, [], ◌∷◌, ◌++◌, inl,
  inr,
}
use thewiki.Prelude.Lists.{All, any, take}
use thewiki.Prelude.Result.{ok}
use thewiki.Prelude.Tests.{◌==◌, if◌then◌else◌, Bool-cases}
use thewiki.Prelude.Text.{Text, starts_with, text_eq}
use thewiki.Core.Tag.{lower_char, to_ascii_lowercase, new}
use thewiki.Core.Tag.Lowercase.{to_ascii_lowercase_idem, new-ok}
use thewiki.Storage.Schema.{Db}
use thewiki.Storage.Relations.{insert_sorted, decode_tags, text_leb}
use thewiki.Storage.Pagination.{clamp_limit}
use thewiki.Storage.Tags.{is_wildcard, escape_like, insert_distinct, tags_where, list_all_tags}

-- What the database documents of `LIKE pattern ESCAPE '\'`: letters of either case are alike, a character
-- after the escape stands for itself, and a percent sign at the end for any rest.
pub record IsLike (like : Text → Text → Bool) : Type 0 where
  pub rest : (t : Text) → like (b'%' ∷ []) t ≡ true
  pub literal :
      (c d : ℕ) (p t : Text)
      → is_wildcard c ≡ false
      → like (c ∷ p) (d ∷ t) ≡ (lower_char c == lower_char d && like p t)
  pub literal_end : (c : ℕ) (p : Text) → is_wildcard c ≡ false → like (c ∷ p) [] ≡ false
  pub escaped :
      (c d : ℕ) (p t : Text)
      → is_wildcard c ≡ true
      → like (b'\\' ∷ c ∷ p) (d ∷ t) ≡ (lower_char c == lower_char d && like p t)
  pub escaped_end : (c : ℕ) (p : Text) → is_wildcard c ≡ true → like (b'\\' ∷ c ∷ p) [] ≡ false

escape_like-wildcard :
    (c : ℕ) (s : Text) → is_wildcard c ≡ true → escape_like (c ∷ s) ≡ b'\\' ∷ c ∷ escape_like s
unfolding escape_like
escape_like-wildcard c s e = ap (λ b. if b then b'\\' ∷ c ∷ escape_like s else c ∷ escape_like s) e

escape_like-literal :
    (c : ℕ) (s : Text) → is_wildcard c ≡ false → escape_like (c ∷ s) ≡ c ∷ escape_like s
unfolding escape_like
escape_like-literal c s e = ap (λ b. if b then b'\\' ∷ c ∷ escape_like s else c ∷ escape_like s) e

module _ (like : Text → Text → Bool) (law : IsLike like) where
  like-escape_like :
      (s t : Text)
      → like (escape_like s ++ b'%' ∷ []) t
        ≡ starts_with (to_ascii_lowercase s) (to_ascii_lowercase t)
  unfolding to_ascii_lowercase escape_like
  like-escape_like [] t = law.rest t
  like-escape_like (c ∷ s) [] = elim (Bool-cases (is_wildcard c)) [
    | inl e ↦
        ap (λ p. like (p ++ b'%' ∷ []) []) (escape_like-wildcard c s e)
        ∙ law.escaped_end c (escape_like s ++ b'%' ∷ []) e
    | inr e ↦
        ap (λ p. like (p ++ b'%' ∷ []) []) (escape_like-literal c s e)
        ∙ law.literal_end c (escape_like s ++ b'%' ∷ []) e
  ]
  like-escape_like (c ∷ s) (d ∷ t) =
      let rest = ap (λ b. lower_char c == lower_char d && b) (like-escape_like s t) in
      elim (Bool-cases (is_wildcard c)) [
        | inl e ↦
            ap (λ p. like (p ++ b'%' ∷ []) (d ∷ t)) (escape_like-wildcard c s e)
            ∙ law.escaped c d (escape_like s ++ b'%' ∷ []) t e
            ∙ rest
        | inr e ↦
            ap (λ p. like (p ++ b'%' ∷ []) (d ∷ t)) (escape_like-literal c s e)
            ∙ law.literal c d (escape_like s ++ b'%' ∷ []) t e
            ∙ rest
      ]

-- Stored as the constructor of tags makes it.
abbrev pub IsStored : ℕ × Text → Type 0
IsStored row = new row.1 ≡ ok row.1

tags_where-agree :
    (test other : Text → Bool) (rows : List (ℕ × Text))
    → ((t : Text) → new t ≡ ok t → test t ≡ other t)
    → All IsStored rows
    → tags_where test rows ≡ tags_where other rows
tags_where-agree test other [] agree h = refl
tags_where-agree test other (row ∷ rows) agree h =
    ap₂ (λ b rest. if b then insert_distinct row.1 rest else rest) (agree row.1 h.0)
      (tags_where-agree test other rows agree h.1)

abbrev Valid : Text → Type 0
Valid t = new t ≡ ok t

All-insert_sorted :
    (t : Text) (tags : List Text) → Valid t → All Valid tags → All Valid (insert_sorted t tags)
All-insert_sorted t [] v h = (v, tt)
All-insert_sorted t (u ∷ tags) v h = elim (Bool-cases (text_leb t u)) [
  | inl e ↦ rw (e) (v, h)
  | inr e ↦ rw (e) (h.0, All-insert_sorted t tags v h.1)
]

All-tags_where :
    (test : Text → Bool) (rows : List (ℕ × Text))
    → All IsStored rows
    → All Valid (tags_where test rows)
All-tags_where test [] h = tt
All-tags_where test (row ∷ rows) h =
    let rest = All-tags_where test rows h.1 in
    let tags = tags_where test rows in
    elim (Bool-cases (test row.1)) [
      | inr e ↦ rw (e) rest
      | inl e ↦ elim (Bool-cases (any (text_eq row.1) tags)) [
        | inl f ↦ rw (e, f) rest
        | inr f ↦ rw (e, f) (All-insert_sorted row.1 tags h.0 rest)
      ]
    ]

All-take : (n : ℕ) (tags : List Text) → All Valid tags → All Valid (take n tags)
All-take zero tags h = tt
All-take (suc n) [] h = tt
All-take (suc n) (t ∷ tags) h = (h.0, All-take n tags h.1)

decode_tags-Valid : (tags : List Text) → All Valid tags → decode_tags tags ≡ ok tags
decode_tags-Valid [] h = refl
decode_tags-Valid (t ∷ tags) h = rw (h.0, decode_tags-Valid tags h.1) refl

-- The completion of a prefix takes it as it stands: if the stored tags are valid, it answers without an
-- error what the statement gives with the test of starting with the prefix in lowercase in the place of
-- LIKE, so that no character of the prefix is a wildcard.
pub list_all_tags-prefix :
    (like : Text → Text → Bool) (prefix : Text) (limit : ℕ) (db : Db)
    → IsLike like
    → All IsStored db.page_tags
    → list_all_tags like prefix limit db
      ≡ ok (
          take
            (clamp_limit limit)
            (tags_where (starts_with (to_ascii_lowercase prefix)) db.page_tags))
unfolding list_all_tags
list_all_tags-prefix like prefix limit db law h =
    let low = to_ascii_lowercase prefix in
    let pattern = escape_like low ++ b'%' ∷ [] in
    let plain = tags_where (starts_with low) db.page_tags in
    let agree : (t : Text) → Valid t → like pattern t ≡ starts_with low t = λ t v.
      like-escape_like like law low t
      ∙ ap₂ starts_with (to_ascii_lowercase_idem prefix) (sym (new-ok t t v)) in
    ap (λ tags. decode_tags (take (clamp_limit limit) tags))
      (tags_where-agree (like pattern) (starts_with low) db.page_tags agree h)
    ∙ decode_tags-Valid (take (clamp_limit limit) plain)
        (All-take (clamp_limit limit) plain (All-tags_where (starts_with low) db.page_tags h))
