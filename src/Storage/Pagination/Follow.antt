-- ===== src/Storage/Pagination/Follow.antt =====
-- The walk of a listing of crates/storage/src/sqlite by the cursors that it returns.
use thewiki.Prelude.{
  ◌≡◌, refl, ℕ, zero, suc, ◌+◌, ◌≤◌, ◌<◌, Option, some, none, Bool, true, ◌⊎◌, inl, inr, List, [],
  ◌∷◌, ◌++◌, ap, ap₂, append_assoc, sym, subst, append-nil, min, ◌∙◌,
}
use thewiki.Prelude.Lists.{All, length, length-append, take}
use thewiki.Prelude.Tests.{◌==◌, if◌then◌else◌, Bool-cases, Option-cases, ltb, ltb→lt, not_ltb→le}
use thewiki.Storage.Schema.{Db}
use thewiki.Storage.Tables.{filter}
use thewiki.Storage.Tables.Lookup.{Distinct}
use thewiki.Storage.Pagination.{
  Cursor, PageSlice, older, newer, order_by, past, clamp_limit, last, anchor, finalise_page, select,
  list_page, page_cursor, revision_cursor, pages_of, revisions_of, list_in_namespace, list_for_page,
}
use thewiki.Storage.Pagination.Ordered.{
  Strict, older-Strict, newer-Strict, filter-narrow, filter-holds, All-middle, Ordered,
  filter-Ordered, order_by-Ordered, filter-past,
}
use native.Mathlib.Omega.{arith}

pub clamp_limit-bounds : (limit : ℕ) → (0 < clamp_limit limit) × (clamp_limit limit ≤ 500)
unfolding clamp_limit
clamp_limit-bounds limit = ground arith

take-short : {A : Type 0} (n : ℕ) (xs : List A) → length xs ≤ n → take n xs ≡ xs
take-short zero [] h = refl
take-short zero (x ∷ xs) h = ground arith
take-short (suc n) [] h = refl
take-short (suc n) (x ∷ xs) h = ap (λ t. x ∷ t) (take-short n xs (omega arith))

take-take : {A : Type 0} (n m : ℕ) (xs : List A) → n ≤ m → take n (take m xs) ≡ take n xs
take-take zero m xs h = refl
take-take (suc n) zero xs h = ground arith
take-take (suc n) (suc m) [] h = refl
take-take (suc n) (suc m) (x ∷ xs) h = ap (λ t. x ∷ t) (take-take n m xs (omega arith))

length-take : {A : Type 0} (n : ℕ) (xs : List A) → length (take n xs) ≡ min n (length xs)
length-take zero xs = ground arith
length-take (suc n) [] = ground arith
length-take (suc n) (x ∷ xs) = ground (arith, length-take n xs)

-- A list longer than a page, cut after the page's last row.
cut :
    {A : Type 0} (n : ℕ) (xs : List A)
    → 0 < n
    → n < length xs
    → (x : A) × (pre : List A) × (post : List A) × (last (take n xs) ≡ some x)
      × (take n xs ≡ pre ++ x ∷ [])
      × (xs ≡ pre ++ x ∷ post)
cut zero xs h k = ground arith
cut (suc n) [] h k = ground arith
cut (suc zero) (x ∷ xs) h k = (x, [], xs, refl, refl, refl)
cut (suc (suc n)) (x ∷ []) h k = ground arith
cut (suc (suc n)) (x ∷ y ∷ xs) h k =
    let (z, pre, post, l, t, e) = cut (suc n) (y ∷ xs) (omega arith) (omega arith) in
    (z, x ∷ pre, post, l, ap (λ r. x ∷ r) t, ap (λ r. x ∷ r) e)

-- What a client has still to read.
abbrev pub remaining {ℓ} : {A : Type ℓ} → (Option Cursor → List A) → Option Cursor → List A
remaining listing none = []
remaining listing (some cursor) = listing (some cursor)

-- The page and the listing from its cursor are `rows`; the page has at most `limit` rows, and exactly
-- as many if it has a cursor.
abbrev pub Splits : {A : Type 0} → ℕ → List A → (Option Cursor → List A) → PageSlice A → Type 0
Splits limit rows listing slice =
    (rows ≡ slice.items ++ remaining listing slice.next)
    × (length slice.items ≤ limit)
    × ((slice.next ≡ none) ⊎ (length slice.items ≡ limit))

-- A client that asks for page after page until none has a cursor.
abbrev pub walk : {A : Type 0} → (Option Cursor → PageSlice A) → ℕ → Option Cursor → List A
walk fetch zero cursor = []
walk fetch (suc fuel) cursor =
    let slice = fetch cursor in slice.items ++ remaining (walk fetch fuel) slice.next

walk-listing :
    {A : Type 0} (limit : ℕ) (listing : Option Cursor → List A)
    (fetch : Option Cursor → PageSlice A)
    → 0 < limit
    → ((c : Option Cursor) → Splits limit (listing c) listing (fetch c))
    → (fuel : ℕ) (cursor : Option Cursor) → length (listing cursor) < fuel
    → walk fetch fuel cursor ≡ listing cursor
walk-listing limit listing fetch positive splits zero cursor h = ground arith
walk-listing limit listing fetch positive splits (suc fuel) cursor h =
    let (whole, bound, full) = splits cursor in
    elim (Option-cases (fetch cursor).next) [
      | inl e ↦
          ap (λ n. (fetch cursor).items ++ remaining (walk fetch fuel) n) e
          ∙ sym (whole ∙ ap (λ n. (fetch cursor).items ++ remaining listing n) e)
      | inr (c, e) ↦
          let split : listing cursor ≡ (fetch cursor).items ++ listing (some c) =
            whole ∙ ap (λ n. (fetch cursor).items ++ remaining listing n) e in
          let shorter : length (listing (some c)) < fuel = elim full [
            | inl k ↦ ground (arith, k, e)
            | inr k ↦ omega (
              arith,
              h,
              k,
              positive,
              ap length split,
              length-append (fetch cursor).items (listing (some c)),
            )
          ] in
          ap (λ n. (fetch cursor).items ++ remaining (walk fetch fuel) n) e
          ∙ ap (λ r. (fetch cursor).items ++ r)
              (walk-listing limit listing fetch positive splits fuel (some c) shorter)
          ∙ sym split
    ]

module _ {A : Type 0} (key : A → Cursor) where
  finalise_page-fits :
      (rows : List A) (limit : ℕ) (listing : Option Cursor → List A)
      → length rows ≤ limit
      → Splits limit rows listing (finalise_page key (take (limit + 1) rows) limit)
  unfolding finalise_page
  finalise_page-fits rows limit listing h =
      subst (λ r. Splits limit rows listing (finalise_page key r limit))
        (sym (take-short (limit + 1) rows (omega arith)))
        (elim (Bool-cases (ltb limit (length rows))) [
          | inl e ↦ ground arith
          | inr e ↦
              subst
                (λ b. Splits limit rows listing (record {
                  items = if b then take limit rows else rows;
                  next =
                      if b then anchor key (last (if b then take limit rows else rows)) else none;
                }))
                (sym e) (sym (append-nil rows), h, inl refl)
        ])

  finalise_page-cuts :
      (rows : List A) (limit : ℕ) (listing : Option Cursor → List A) (x : A) (pre post : List A)
      → limit < length rows
      → last (take limit rows) ≡ some x
      → take limit rows ≡ pre ++ x ∷ []
      → rows ≡ pre ++ x ∷ post
      → listing (some (key x)) ≡ post
      → Splits limit rows listing (finalise_page key (take (limit + 1) rows) limit)
  unfolding finalise_page
  finalise_page-cuts rows limit listing x pre post more l t e c =
      let long : ltb limit (length (take (limit + 1) rows)) ≡ true =
        ground (arith, length-take (limit + 1) rows) in
      let kept : take limit (take (limit + 1) rows) ≡ take limit rows =
        take-take limit (limit + 1) rows (omega arith) in
      subst
        (λ b. Splits limit rows listing (record {
          items = if b then take limit (take (limit + 1) rows) else take (limit + 1) rows;
          next =
              if b
              then anchor key
                  (last (if b then take limit (take (limit + 1) rows) else take (limit + 1) rows))
              else none;
        }))
        (sym long)
        (subst (λ k. Splits limit rows listing (record { items = k; next = anchor key (last k) }))
          (sym kept)
          (subst
            (λ o.
              Splits limit rows listing (record { items = take limit rows; next = anchor key o }))
            (sym l)
            (
              e ∙ sym (ap₂ (λ a b. a ++ b) t c ∙ append_assoc pre (x ∷ []) post),
              ground (arith, length-take limit rows),
              inr (ground (arith, length-take limit rows)),
            )))

  module _ (precedes : Cursor → Cursor → Bool) (strict : Strict precedes) where
    past_onward :
        (cursor : Option Cursor) (x : A)
        → past key precedes cursor x ≡ true
        → (a : A) → past key precedes (some (key x)) a ≡ true
        → past key precedes cursor a ≡ true
    past_onward none x h a k = refl
    past_onward (some c) x h a k = strict.trans c (key x) (key a) h k

    -- The rows after a row of a listing are the listing from that row's cursor.
    select-cuts :
        (where_ : A → Bool) (cursor : Option Cursor) (rows : List A) (x : A) (pre post : List A)
        → Distinct (λ a. (key a).id) rows
        → select key precedes where_ cursor rows ≡ pre ++ x ∷ post
        → select key precedes where_ (some (key x)) rows ≡ post
    select-cuts where_ cursor rows x pre post d e =
        let base = filter where_ (order_by key precedes rows) in
        let listed = filter (past key precedes cursor) base in
        let ordered : Ordered key precedes (pre ++ x ∷ post) = subst (Ordered key precedes) e (
          filter-Ordered key precedes (past key precedes cursor) base (
            filter-Ordered key precedes where_ (order_by key precedes rows)
              (order_by-Ordered key precedes strict rows d))) in
        let holds : past key precedes cursor x ≡ true =
          All-middle (λ a. past key precedes cursor a ≡ true) pre x post
            (subst (All (λ a. past key precedes cursor a ≡ true)) e
              (filter-holds (past key precedes cursor) base)) in
        sym (
          filter-narrow (past key precedes (some (key x))) (past key precedes cursor)
            (past_onward cursor x holds) base)
        ∙ ap (filter (past key precedes (some (key x)))) e
        ∙ filter-past key precedes strict pre x post ordered

    list_page-Splits :
        (where_ : A → Bool) (cursor : Option Cursor) (limit : ℕ) (rows : List A)
        → Distinct (λ a. (key a).id) rows
        → Splits
            (clamp_limit limit)
            (select key precedes where_ cursor rows)
            (λ c. select key precedes where_ c rows)
            (list_page key precedes where_ cursor limit rows)
    list_page-Splits where_ cursor limit rows d =
        let listed = select key precedes where_ cursor rows in
        let clamped = clamp_limit limit in
        elim (Bool-cases (ltb clamped (length listed))) [
          | inl e ↦
              let more = ltb→lt clamped (length listed) e in
              let (x, pre, post, l, t, whole) =
                cut clamped listed (clamp_limit-bounds limit).0 more in
              finalise_page-cuts listed clamped (λ c. select key precedes where_ c rows) x pre post
                more l t whole (select-cuts where_ cursor rows x pre post d whole)
          | inr e ↦
              finalise_page-fits listed clamped (λ c. select key precedes where_ c rows)
                (not_ltb→le clamped (length listed) e)
        ]

list_in_namespace-Splits :
    (namespace_id : ℕ) (cursor : Option Cursor) (limit : ℕ) (db : Db)
    → Distinct (λ p. p.id) db.pages
    → Splits
        (clamp_limit limit)
        (pages_of namespace_id cursor db)
        (λ c. pages_of namespace_id c db)
        (list_in_namespace namespace_id cursor limit db)
unfolding list_in_namespace
list_in_namespace-Splits namespace_id cursor limit db d =
    list_page-Splits page_cursor older older-Strict (λ p. p.namespace_id == namespace_id) cursor
      limit db.pages d

-- Following the cursors of a namespace's listing ends and loses no page and repeats none: if the ids
-- differ and the client may ask once more than pages remain, what it reads from a cursor on is the
-- whole of the unlimited listing from there, in its order.
pub list_in_namespace-walk :
    (namespace_id : ℕ) (cursor : Option Cursor) (limit fuel : ℕ) (db : Db)
    → Distinct (λ p. p.id) db.pages
    → length (pages_of namespace_id cursor db) < fuel
    → walk (λ c. list_in_namespace namespace_id c limit db) fuel cursor
      ≡ pages_of namespace_id cursor db
list_in_namespace-walk namespace_id cursor limit fuel db d enough =
    walk-listing (clamp_limit limit) (λ c. pages_of namespace_id c db)
      (λ c. list_in_namespace namespace_id c limit db) (clamp_limit-bounds limit).0
      (λ c. list_in_namespace-Splits namespace_id c limit db d) fuel cursor enough

-- The revisions of a page are listed page by page from the newest on: if the ids differ, the unlimited
-- listing from a cursor on is the items returned and then the listing from the returned cursor, or
-- nothing more without one; there are at most the clamped limit of items, and exactly that many before
-- a cursor.
list_for_page-Splits :
    (page_id : ℕ) (cursor : Option Cursor) (limit : ℕ) (db : Db)
    → Distinct (λ r. r.id) db.revisions
    → Splits
        (clamp_limit limit)
        (revisions_of page_id cursor db)
        (λ c. revisions_of page_id c db)
        (list_for_page page_id cursor limit db)
unfolding list_for_page
list_for_page-Splits page_id cursor limit db d =
    list_page-Splits revision_cursor newer newer-Strict (λ r. r.page_id == page_id) cursor limit
      db.revisions d
