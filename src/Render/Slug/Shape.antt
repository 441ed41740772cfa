-- ===== src/Render/Slug/Shape.antt =====
-- What the ids of crates/render/src/slug.rs look like, and that `slugify` keeps an id.
use thewiki.Prelude.{
  ◌≡◌, refl, ap, ap₂, sym, subst, ◌∙◌, ℕ, Option, some, none, Bool, true, false, not, ◌&&◌, ◌||◌,
  List, [], ◌∷◌, ◌++◌, ◌⊎◌, inl, inr,
}
use thewiki.Prelude.Tests.{◌==◌, if◌then◌else◌, Bool-cases, Option-cases, ==_iff}
use thewiki.Prelude.Text.{Text, is_whitespace}
use thewiki.Render.Slug.{
  is_letter, mapped, Buffer, is_empty, push, push_dash, push_all, pop_dashes, start, or_section,
  slugify,
}
use mathlib.Core.List.{reverse, reverse-cons, reverse-append}
use native.Mathlib.Omega.{arith}

-- The text that the list holds from its last character back: letters and digits, and dashes each
-- between two of them, except that the text may end in one. The value tells whether a dash may not
-- follow.
abbrev pub reading : List ℕ → Option Bool
reading [] = some true
reading (c ∷ s) = elim (reading s) [
  | none ↦ none
  | some closed ↦
      if is_letter c then some false else if c == 45 && not closed then some true else none
]

-- Letters and digits, in groups with one dash between two.
abbrev pub IsAnchor : Text → Type 0
IsAnchor s = reading (reverse s) ≡ some false

mapped-cases :
    (ch : ℕ)
    → (mapped ch ≡ none)
      ⊎ ((mapped ch ≡ some 45) ⊎ ((c : ℕ) × (mapped ch ≡ some c) × (is_letter c ≡ true)))
unfolding mapped
mapped-cases ch = ground arith

abbrev pub Sound : Buffer → Type 0
Sound b = reading b.out ≡ some (b.prev_dash || is_empty b.out)

reading-letter :
    (c : ℕ) (s : List ℕ) (closed : Bool)
    → is_letter c ≡ true
    → reading s ≡ some closed
    → reading (c ∷ s) ≡ some false
reading-letter c s closed l h = rw (h, l) refl

reading-dash : (s : List ℕ) → reading s ≡ some false → reading (45 ∷ s) ≡ some true
reading-dash s h = rw h refl

not_dash : (c : ℕ) → is_letter c ≡ true → (c == 45) ≡ false
not_dash c l = ground arith

-- What the last character of a reading is.
reading-cases :
    (c : ℕ) (s : List ℕ) (closed : Bool)
    → reading (c ∷ s) ≡ some closed
    → ((is_letter c ≡ true) × (closed ≡ false) × (k : Bool) × (reading s ≡ some k))
      ⊎ ((c ≡ 45) × (closed ≡ true) × (reading s ≡ some false))
reading-cases c s closed h = elim (Option-cases (reading s)) [
  | inl e ↦ ground arith
  | inr (k, e) ↦ elim (Bool-cases (is_letter c)) [
    | inl l ↦ inl (l, ground arith, k, e)
    | inr l ↦
        inr (ground (arith, ==_iff c 45), ground (arith, ==_iff c 45), ground (arith, ==_iff c 45))
  ]
]

push_dash-Sound : (b : Buffer) → Sound b → Sound (push_dash b)
push_dash-Sound b h = elim (Bool-cases (not b.prev_dash && not (is_empty b.out))) [
  | inl e ↦
      subst (λ k. Sound (if k then record { prev_dash = true; out = 45 ∷ b.out } else b)) (sym e)
        (reading-dash b.out (ground arith))
  | inr e ↦
      subst (λ k. Sound (if k then record { prev_dash = true; out = 45 ∷ b.out } else b)) (sym e) h
]

push-letter :
    (c : ℕ) (b : Buffer)
    → is_letter c ≡ true
    → push (some c) b ≡ record { prev_dash = false; out = c ∷ b.out }
push-letter c b l = rw (not_dash c l) refl

push-Sound : (ch : ℕ) (b : Buffer) → Sound b → Sound (push (mapped ch) b)
push-Sound ch b h = elim (mapped-cases ch) [
  | inl e ↦ subst (λ m. Sound (push m b)) (sym e) h
  | inr (inl e) ↦ subst (λ m. Sound (push m b)) (sym e) (push_dash-Sound b h)
  | inr (inr (c, e, l)) ↦
      subst (λ m. Sound (push m b)) (sym e)
        (subst Sound (sym (push-letter c b l))
          (reading-letter c b.out (b.prev_dash || is_empty b.out) l h))
]

push_all-Sound : (s : Text) (b : Buffer) → Sound b → Sound (push_all s b)
push_all-Sound [] b h = h
push_all-Sound (ch ∷ s) b h = push_all-Sound s (push (mapped ch) b) (push-Sound ch b h)

pop_dashes-letter : (c : ℕ) (out : List ℕ) → is_letter c ≡ true → pop_dashes (c ∷ out) ≡ c ∷ out
pop_dashes-letter c out l = rw (not_dash c l) refl

pop_dashes-closed : (out : List ℕ) → reading out ≡ some false → pop_dashes out ≡ out
pop_dashes-closed [] h = refl
pop_dashes-closed (c ∷ out) h = elim (reading-cases c out false h) [
  | inl (l, e, k, r) ↦ pop_dashes-letter c out l
  | inr (e, f, k) ↦ ground arith
]

-- What is popped is at most one dash.
pop_dashes-reading :
    (out : List ℕ) (closed : Bool)
    → reading out ≡ some closed
    → (pop_dashes out ≡ []) ⊎ (reading (pop_dashes out) ≡ some false)
pop_dashes-reading [] closed h = inl refl
pop_dashes-reading (c ∷ out) closed h = elim (reading-cases c out closed h) [
  | inl (l, e, k, r) ↦ inr (ap reading (pop_dashes-letter c out l) ∙ reading-letter c out k l r)
  | inr (e, f, r) ↦
      inr (ap (λ d. reading (pop_dashes (d ∷ out))) e ∙ ap reading (pop_dashes-closed out r) ∙ r)
]

reverse-twice : (s : List ℕ) → reverse (reverse s) ≡ s
reverse-twice [] = refl
reverse-twice (c ∷ s) =
    ap reverse (reverse-cons c s)
    ∙ reverse-append (reverse s) (c ∷ [])
    ∙ ap (λ t. c ∷ t) (reverse-twice s)

or_section-nonempty : (s : Text) → IsAnchor s → or_section s ≡ s
or_section-nonempty [] h = ground arith
or_section-nonempty (c ∷ s) h = refl

-- The id that `slugify` gives is, for every title, of lowercase letters and digits, in one group or
-- several with one dash between two.
pub slugify-IsAnchor : (input : Text) → IsAnchor (slugify input)
unfolding slugify
slugify-IsAnchor input =
    let b = push_all input start in
    elim (pop_dashes-reading b.out (b.prev_dash || is_empty b.out)
      (push_all-Sound input start refl)) [
        | inl e ↦ ap (λ o. reading (reverse (or_section (reverse o)))) e
        | inr r ↦
            let anchor : IsAnchor (reverse (pop_dashes b.out)) =
              ap reading (reverse-twice (pop_dashes b.out)) ∙ r in
            ap (λ o. reading (reverse o)) (or_section-nonempty (reverse (pop_dashes b.out)) anchor)
            ∙ anchor
      ]

push_all-append : (s t : Text) (b : Buffer) → push_all (s ++ t) b ≡ push_all t (push_all s b)
push_all-append [] t b = refl
push_all-append (ch ∷ s) t b = push_all-append s t (push (mapped ch) b)

mapped-letter : (c : ℕ) → is_letter c ≡ true → mapped c ≡ some c
unfolding mapped
mapped-letter c l = ground arith

mapped-dash : mapped 45 ≡ some 45
unfolding mapped is_whitespace
mapped-dash = refl

and_false : (b : Bool) → (b && false) ≡ false
and_false true = refl
and_false false = refl

push-dash :
    (t : List ℕ)
    → reading t ≡ some false
    → push (some 45) (record { prev_dash = false; out = t })
      ≡ record { prev_dash = true; out = 45 ∷ t }
push-dash [] h = ground arith
push-dash (d ∷ t) h = refl

-- A reading is its own buffer.
push_all-reading :
    (t : List ℕ) (closed : Bool)
    → reading t ≡ some closed
    → push_all (reverse t) start ≡ record { prev_dash = closed && not (is_empty t); out = t }
push_all-reading [] closed h = ap (λ d. record { prev_dash = d; out = [] }) (sym (and_false closed))
push_all-reading (c ∷ t) closed h =
    ap (λ s. push_all s start) (reverse-cons c t)
    ∙ push_all-append (reverse t) (c ∷ []) start
    ∙ elim (reading-cases c t closed h) [
      | inl (l, e, k, r) ↦
          ap (λ b. push (mapped c) b) (push_all-reading t k r)
          ∙ ap (λ m. push m (record { prev_dash = k && not (is_empty t); out = t }))
              (mapped-letter c l)
          ∙ push-letter c (record { prev_dash = k && not (is_empty t); out = t }) l
          ∙ ap (λ d. record { prev_dash = d && true; out = c ∷ t }) (sym e)
      | inr (e, f, r) ↦
          ap (λ b. push (mapped c) b) (push_all-reading t false r)
          ∙ ap (λ d. push (mapped d) (record { prev_dash = false; out = t })) e
          ∙ ap (λ m. push m (record { prev_dash = false; out = t })) mapped-dash
          ∙ push-dash t r
          ∙ ap₂ (λ k d. record { prev_dash = k && true; out = d ∷ t }) (sym f) (sym e)
    ]

-- `slugify` keeps an id as it is.
pub slugify-anchor : (s : Text) → IsAnchor s → slugify s ≡ s
unfolding slugify
slugify-anchor s h =
    let buffered : push_all s start ≡ record { prev_dash = false; out = reverse s } =
      ap (λ t. push_all t start) (sym (reverse-twice s)) ∙ push_all-reading (reverse s) false h in
    ap (λ b. or_section (reverse (pop_dashes b.out))) buffered
    ∙ ap (λ o. or_section (reverse o)) (pop_dashes-closed (reverse s) h)
    ∙ ap or_section (reverse-twice s)
    ∙ or_section-nonempty s h

-- For every title, `slugify` of its id is that id.
slugify_idem : (input : Text) → slugify (slugify input) ≡ slugify input
slugify_idem input = slugify-anchor (slugify input) (slugify-IsAnchor input)
