-- ===== src/Storage/Pagination/Ordered.antt =====
-- The order that a listing's statement asks for: strict, since ids differ.
use thewiki.Prelude.{
  ◌≡◌, refl, some, none, Bool, true, false, inl, inr, List, [], ◌∷◌, ◌++◌, sym, subst,
}
use thewiki.Prelude.Lists.{All}
use thewiki.Prelude.Tests.{◌==◌, if◌then◌else◌, if-either, Bool-cases}
use thewiki.Storage.Tables.{filter}
use thewiki.Storage.Tables.Lookup.{by_key, Distinct}
use thewiki.Storage.Pagination.{Cursor, older, newer, insert_by, order_by, past}
use native.Mathlib.Omega.{arith}

pub record Strict (precedes : Cursor → Cursor → Bool) : Type 0 where
  pub trans : (a b c : Cursor) → precedes a b ≡ true → precedes b c ≡ true → precedes a c ≡ true
  pub total : (a b : Cursor) → (a.id == b.id) ≡ false → precedes a b ≡ false → precedes b a ≡ true
  pub irrefl : (a : Cursor) → precedes a a ≡ false

pub older-Strict : Strict older
older-Strict = record {
  trans = λ a b c h k. ground arith;
  total = λ a b h k. ground arith;
  irrefl = λ a. ground arith;
}

pub newer-Strict : Strict newer
newer-Strict = record {
  trans = λ a b c h k. ground arith;
  total = λ a b h k. ground arith;
  irrefl = λ a. ground arith;
}

pub filter-narrow :
    {A : Type 0} (p q : A → Bool)
    → ((a : A) → p a ≡ true → q a ≡ true)
    → (xs : List A) → filter p (filter q xs) ≡ filter p xs
filter-narrow p q sub [] = refl
filter-narrow p q sub (x ∷ xs) =
    let ih = filter-narrow p q sub xs in
    elim (Bool-cases (q x)) [
      | inl e ↦ rw (e, ih)
      | inr e ↦ elim (Bool-cases (p x)) [ inl h ↦ ground (arith, sub x h) | inr h ↦ rw (e, h, ih) ]
    ]

pub filter-every :
    {A : Type 0} (p : A → Bool) (xs : List A) → All (λ a. p a ≡ true) xs → filter p xs ≡ xs
filter-every p [] h = refl
filter-every p (x ∷ xs) h = rw (h.0, filter-every p xs h.1)

pub All-filter :
    {A : Type 0} (P : A → Type 0) (p : A → Bool) (xs : List A) → All P xs → All P (filter p xs)
All-filter P p [] h = tt
All-filter P p (x ∷ xs) h = elim (Bool-cases (p x)) [
  | inl e ↦
      subst (λ b. All P (if b then x ∷ filter p xs else filter p xs)) (sym e)
        (h.0, All-filter P p xs h.1)
  | inr e ↦
      subst (λ b. All P (if b then x ∷ filter p xs else filter p xs)) (sym e)
        (All-filter P p xs h.1)
]

pub filter-holds : {A : Type 0} (p : A → Bool) (xs : List A) → All (λ a. p a ≡ true) (filter p xs)
filter-holds p [] = tt
filter-holds p (x ∷ xs) = elim (Bool-cases (p x)) [
  | inl e ↦
      subst (λ b. All (λ a. p a ≡ true) (if b then x ∷ filter p xs else filter p xs)) (sym e)
        (e, filter-holds p xs)
  | inr e ↦
      subst (λ b. All (λ a. p a ≡ true) (if b then x ∷ filter p xs else filter p xs)) (sym e)
        (filter-holds p xs)
]

pub All-map :
    {A : Type 0} (P Q : A → Type 0) → ((a : A) → P a → Q a) → (xs : List A) → All P xs → All Q xs
All-map P Q f [] h = tt
All-map P Q f (x ∷ xs) h = (f x h.0, All-map P Q f xs h.1)

pub All-middle :
    {A : Type 0} (P : A → Type 0) (xs : List A) (x : A) (ys : List A) → All P (xs ++ x ∷ ys) → P x
All-middle P [] x ys h = h.0
All-middle P (y ∷ xs) x ys h = All-middle P xs x ys h.1

module _ {A : Type 0} (key : A → Cursor) (precedes : Cursor → Cursor → Bool) where
  -- Each row comes strictly before all that follow it.
  abbrev pub Ordered : List A → Type 0
  Ordered [] = Unit
  Ordered (x ∷ xs) = All (λ y. precedes (key x) (key y) ≡ true) xs × Ordered xs

  pub filter-Ordered : (p : A → Bool) (xs : List A) → Ordered xs → Ordered (filter p xs)
  filter-Ordered p [] h = tt
  filter-Ordered p (x ∷ xs) h =
      if-either Ordered (p x) (x ∷ filter p xs) (filter p xs)
        (All-filter (λ y. precedes (key x) (key y) ≡ true) p xs h.0, filter-Ordered p xs h.1)
        (filter-Ordered p xs h.1)

  pub All-insert_by :
      (P : A → Type 0) (x : A) (xs : List A) → P x → All P xs → All P (insert_by key precedes x xs)
  All-insert_by P x [] px h = (px, tt)
  All-insert_by P x (y ∷ ys) px h =
      if-either (All P) (precedes (key x) (key y)) (x ∷ y ∷ ys) (y ∷ insert_by key precedes x ys)
        (px, h) (h.0, All-insert_by P x ys px h.1)

  pub All-order_by : (P : A → Type 0) (xs : List A) → All P xs → All P (order_by key precedes xs)
  All-order_by P [] h = tt
  All-order_by P (x ∷ xs) h =
      All-insert_by P x (order_by key precedes xs) h.0 (All-order_by P xs h.1)

  abbrev pub Apart : A → A → Type 0
  Apart x y = ((key x).id == (key y).id) ≡ false

  pub by_key-Apart :
      (x : A) (xs : List A) → by_key (λ a. (key a).id) xs (key x).id ≡ none → All (Apart x) xs
  by_key-Apart x [] h = tt
  by_key-Apart x (y ∷ ys) h = elim (Bool-cases ((key y).id == (key x).id)) [
    | inl e ↦ ground (arith)
    | inr e ↦ (ground arith, by_key-Apart x ys (ground arith))
  ]

  module _ (strict : Strict precedes) where
    pub insert_by-Ordered :
        (x : A) (xs : List A)
        → All (Apart x) xs
        → Ordered xs
        → Ordered (insert_by key precedes x xs)
    insert_by-Ordered x [] apart h = (tt, tt)
    insert_by-Ordered x (y ∷ ys) apart h = elim (Bool-cases (precedes (key x) (key y))) [
      | inl e ↦
          subst (λ b. Ordered (if b then x ∷ y ∷ ys else y ∷ insert_by key precedes x ys)) (sym e)
            (
              (
                e,
                All-map (λ z. precedes (key y) (key z) ≡ true)
                    (λ z. precedes (key x) (key z) ≡ true)
                    (λ z k. strict.trans (key x) (key y) (key z) e k) ys h.0,
              ),
              h,
            )
      | inr e ↦
          subst (λ b. Ordered (if b then x ∷ y ∷ ys else y ∷ insert_by key precedes x ys)) (sym e)
            (
              All-insert_by (λ z. precedes (key y) (key z) ≡ true) x ys
                  (strict.total (key x) (key y) apart.0 e) h.0,
              insert_by-Ordered x ys apart.1 h.1,
            )
    ]

    pub order_by-Ordered :
        (xs : List A) → Distinct (λ a. (key a).id) xs → Ordered (order_by key precedes xs)
    order_by-Ordered [] d = tt
    order_by-Ordered (x ∷ xs) d =
        insert_by-Ordered x (order_by key precedes xs)
          (All-order_by (Apart x) xs (by_key-Apart x xs d.0)) (order_by-Ordered xs d.1)

    pub not_past : (a b : A) → precedes (key a) (key b) ≡ true → precedes (key b) (key a) ≡ false
    not_past a b h = ground (arith, strict.trans (key a) (key b) (key a), strict.irrefl (key a))

    -- What comes after a row's cursor is what follows the row.
    pub filter-past :
        (xs : List A) (x : A) (ys : List A)
        → Ordered (xs ++ x ∷ ys)
        → filter (past key precedes (some (key x))) (xs ++ x ∷ ys) ≡ ys
    filter-past [] x ys h =
        rw (strict.irrefl (key x)) (filter-every (past key precedes (some (key x))) ys h.0)
    filter-past (y ∷ xs) x ys h =
        rw (not_past y x (All-middle (λ z. precedes (key y) (key z) ≡ true) xs x ys h.0))
          (filter-past xs x ys h.1)
