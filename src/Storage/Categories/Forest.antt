-- ===== src/Storage/Categories/Forest.antt =====
-- That the parents of crates/storage/src/sqlite/category.rs form no cycle, and that the walk up ends.
use thewiki.Prelude.{
  map, ap₂, ◌≡◌, refl, ap, sym, subst, ◌∙◌, ℕ, zero, suc, ◌<◌, Option, some, none, true, false, not,
  List, [], ◌∷◌, inl, inr,
}
use mathlib.Core.Option.{some-injective}
use thewiki.Prelude.Lists.{any, All, length}
use thewiki.Prelude.Result.{ok, and_then, and_then-ok, unless-ok}
use thewiki.Prelude.Tests.{◌==◌, ==_iff, if◌then◌else◌, Bool-cases, Option-cases}
use thewiki.Storage.Schema.{not_found}
use thewiki.Storage.Tables.{is_there}
use thewiki.Storage.Tables.Lookup.{by_key-key}
use thewiki.Storage.Pagination.Ordered.{All-map}
use thewiki.Storage.Categories.{
  Category, row_by_id, row_by_slug, parent_of, ancestor_ids, insert_row, would_cycle, unless_cycle,
  below, create_under, create, get_by_id, get_all, list_ancestors, depth_budget,
}
use native.Mathlib.Omega.{arith}

-- The parent is among the rows, or there is none.
abbrev pub Grounded : Option ℕ → List Category → Type 0
Grounded none rows = Unit
Grounded (some parent) rows = is_there (row_by_id rows parent) ≡ true

-- No id twice, and each row's parent stands before it was made.
abbrev pub IsForest : List Category → Type 0
IsForest [] = Unit
IsForest (row ∷ rows) =
    (row_by_id rows row.id ≡ none) × (Grounded row.parent_id rows × IsForest rows)

parent_of-cons :
    (row : Category) (rows : List Category) (id : ℕ)
    → parent_of (row ∷ rows) id ≡ (if row.id == id then row.parent_id else parent_of rows id)
unfolding parent_of row_by_id
parent_of-cons row rows id = ground arith

there-cons :
    (row : Category) (rows : List Category) (id : ℕ)
    → is_there (row_by_id rows id) ≡ true
    → is_there (row_by_id (row ∷ rows) id) ≡ true
unfolding row_by_id
there-cons row rows id h = ground (arith, h)

there-other :
    (row : Category) (rows : List Category) (id : ℕ)
    → row_by_id rows row.id ≡ none
    → is_there (row_by_id rows id) ≡ true
    → (row.id == id) ≡ false
there-other row rows id fresh h = elim (Bool-cases (row.id == id)) [
  | inr e ↦ e
  | inl e ↦ ground (arith, ap (λ i. is_there (row_by_id rows i)) ((==_iff row.id id).0 e), fresh, h)
]

Grounded-there :
    (parent : Option ℕ) (rows : List Category) (p : ℕ)
    → Grounded parent rows
    → parent ≡ some p
    → is_there (row_by_id rows p) ≡ true
Grounded-there none rows p g h = cc
Grounded-there (some q) rows p g h =
    ap (λ i. is_there (row_by_id rows i)) (sym (some-injective _ _ h)) ∙ g

-- A parent is a row of the table.
parent_of-there :
    (rows : List Category) (id parent : ℕ)
    → IsForest rows
    → parent_of rows id ≡ some parent
    → is_there (row_by_id rows parent) ≡ true
unfolding parent_of row_by_id
parent_of-there [] id parent w h = cc
parent_of-there (row ∷ rows) id parent w h = elim (Bool-cases (row.id == id)) [
  | inl e ↦ there-cons row rows parent (
      Grounded-there row.parent_id rows parent w.1.0
        (ground (arith, parent_of-cons row rows id, e, h)))
  | inr e ↦
      there-cons row rows parent
        (parent_of-there rows id parent w.1.1 (ground (arith, parent_of-cons row rows id, e, h)))
]

-- A newer row changes nobody's ancestors.
ancestor_ids-cons :
    (budget : ℕ) (row : Category) (rows : List Category) (id : ℕ)
    → IsForest rows
    → row_by_id rows row.id ≡ none
    → (row.id == id) ≡ false
    → ancestor_ids budget (row ∷ rows) id ≡ ancestor_ids budget rows id
unfolding ancestor_ids
ancestor_ids-cons zero row rows id w fresh other = refl
ancestor_ids-cons (suc budget) row rows id w fresh other = elim (Option-cases (parent_of rows id)) [
  | inl e ↦ rw (parent_of-cons row rows id, other, e) refl
  | inr (parent, e) ↦
      rw (parent_of-cons row rows id, other, e)
        (ap (λ r. and_then r (λ out. ok (parent ∷ out)))
          (ancestor_ids-cons budget row rows parent w fresh
            (there-other row rows parent fresh (parent_of-there rows id parent w e))))
]

-- The walk gives rows of the table, and not the one that it starts from.
abbrev pub Ancestors : List Category → ℕ → List ℕ → Type 0
Ancestors rows id chain =
    All (λ a. (is_there (row_by_id rows a) ≡ true) × ((a == id) ≡ false)) chain

abbrev pub Ends : ℕ → List Category → ℕ → Type 0
Ends budget rows id =
    (chain : List ℕ) × (ancestor_ids budget rows id ≡ ok chain) × Ancestors rows id chain

-- Rows of the table before are rows of the table with one more, and not that one.
All-there :
    (row : Category) (rows : List Category) (id : ℕ) (chain : List ℕ)
    → row_by_id rows row.id ≡ none
    → Ancestors rows id chain
    → Ancestors (row ∷ rows) row.id chain × Ancestors (row ∷ rows) id chain
All-there row rows id [] fresh h = (tt, tt)
All-there row rows id (a ∷ chain) fresh h =
    let rest = All-there row rows id chain fresh h.1 in
    let there = there-cons row rows a h.0.0 in
    (
      (
        (
          there,
          ground (arith, there-other row rows a fresh h.0.0, ==_iff a row.id, ==_iff row.id a),
        ),
        rest.0,
      ),
      ((there, h.0.1), rest.1),
    )

ancestor_ids-root :
    (budget : ℕ) (rows : List Category) (id : ℕ)
    → 0 < budget
    → parent_of rows id ≡ none
    → Ends budget rows id
unfolding ancestor_ids
ancestor_ids-root zero rows id positive e = ground arith
ancestor_ids-root (suc budget) rows id positive e = ([], rw e refl, tt)

ancestor_ids-step :
    (budget : ℕ) (rows : List Category) (id parent : ℕ) (chain : List ℕ)
    → parent_of rows id ≡ some parent
    → ancestor_ids budget rows parent ≡ ok chain
    → ancestor_ids (suc budget) rows id ≡ ok (parent ∷ chain)
unfolding ancestor_ids
ancestor_ids-step budget rows id parent chain e h = rw (e, h) refl

-- The walk up from any id ends within the budget, if that is larger than the table, and it meets rows of
-- the table only and never the row that it starts from.
pub ancestor_ids-Ends :
    (budget : ℕ) (rows : List Category) (id : ℕ)
    → length rows < budget
    → IsForest rows
    → Ends budget rows id
unfolding parent_of row_by_id
ancestor_ids-Ends budget [] id small w = ancestor_ids-root budget [] id small refl
ancestor_ids-Ends zero (row ∷ rows) id small w = ground arith
ancestor_ids-Ends (suc budget) (row ∷ rows) id small w = elim (Bool-cases (row.id == id)) [
  | inr e ↦
      let (chain, h, all) = ancestor_ids-Ends (suc budget) rows id (omega arith) w.1.1 in
      (
        chain,
        ancestor_ids-cons (suc budget) row rows id w.1.1 w.0 e ∙ h,
        (All-there row rows id chain w.0 all).1,
      )
  | inl e ↦ elim (Option-cases row.parent_id) [
    | inl none_there ↦
        ancestor_ids-root (suc budget) (row ∷ rows) id (omega arith)
          (parent_of-cons row rows id ∙ rw e none_there)
    | inr (parent, p) ↦
        let there = Grounded-there row.parent_id rows parent w.1.0 p in
        let other = there-other row rows parent w.0 there in
        let (chain, h, all) = ancestor_ids-Ends budget rows parent (omega arith) w.1.1 in
        let same = (==_iff row.id id).0 e in
        (
          parent ∷ chain,
          ancestor_ids-step budget (row ∷ rows) id parent chain
              (parent_of-cons row rows id ∙ rw e p)
              (ancestor_ids-cons budget row rows parent w.1.1 w.0 other ∙ h),
          subst (λ i. Ancestors (row ∷ rows) i (parent ∷ chain)) same
              (
                (
                  there-cons row rows parent there,
                  ground (arith, other, ==_iff row.id parent, ==_iff parent row.id),
                ),
                (All-there row rows parent chain w.0 all).0,
              ),
        )
  ]
]

insert_row-ok :
    (row : Category) (rows out : List Category)
    → insert_row row rows ≡ ok out
    → (row_by_id rows row.id ≡ none) × (row_by_slug rows row.slug ≡ none) × (out ≡ row ∷ rows)
insert_row-ok row rows out h = elim (Option-cases (row_by_id rows row.id)) [
  | inr (found, e) ↦ ground (arith, e, h)
  | inl e ↦ elim (Option-cases (row_by_slug rows row.slug)) [
    | inl f ↦ (e, f, ground (arith, e, f, h))
    | inr (found, f) ↦ ground (arith, e, f, h)
  ]
]

insert_row-IsForest :
    (row : Category) (rows out : List Category)
    → Grounded row.parent_id rows
    → insert_row row rows ≡ ok out
    → IsForest rows
    → IsForest out
insert_row-IsForest row rows out g h w =
    let (fresh, _, e) = insert_row-ok row rows out h in subst IsForest (sym e) (fresh, (g, w))

below-ok :
    (category : Category) (parent : ℕ) (rows out : List Category)
    → below category parent rows ≡ ok out
    → (is_there (row_by_id rows parent) ≡ true) × (insert_row category rows ≡ ok out)
below-ok category parent rows out h =
    let (there, h') =
      unless-ok (not (is_there (row_by_id rows parent))) not_found
        (and_then (ancestor_ids depth_budget rows parent) (unless_cycle category rows)) out h in
    let (ancestors, _, h'') =
      and_then-ok (ancestor_ids depth_budget rows parent) (unless_cycle category rows) out h' in
    let (_, q) =
      unless-ok (any (λ a. a == category.id) ancestors) would_cycle (insert_row category rows) out
        h'' in
    (ground (arith, there), q)

create-below :
    (category : Category) (parent : ℕ) (rows : List Category)
    → category.parent_id ≡ some parent
    → create category rows ≡ below category parent rows
unfolding create
create-below category parent rows e = ap (λ p. create_under p category rows) e

create-root :
    (category : Category) (rows : List Category)
    → category.parent_id ≡ none
    → create category rows ≡ insert_row category rows
unfolding create
create-root category rows e = ap (λ p. create_under p category rows) e

-- A creation that succeeds is an insertion that does.
create-insert_row :
    (category : Category) (rows out : List Category)
    → create category rows ≡ ok out
    → insert_row category rows ≡ ok out
create-insert_row category rows out h = elim (Option-cases category.parent_id) [
  | inl e ↦ sym (create-root category rows e) ∙ h
  | inr (parent, e) ↦
      (below-ok category parent rows out (sym (create-below category parent rows e) ∙ h)).1
]

pub create-row :
    (category : Category) (rows out : List Category)
    → create category rows ≡ ok out
    → (row_by_slug rows category.slug ≡ none) × (out ≡ category ∷ rows)
create-row category rows out h =
    let (_, free, e) = insert_row-ok category rows out (create-insert_row category rows out h) in
    (free, e)

-- A category that is created hangs on one that was there before, so that no cycle of parents arises: if
-- the table is a forest before a creation that succeeds, it is one after it.
pub create-IsForest :
    (category : Category) (rows out : List Category)
    → create category rows ≡ ok out
    → IsForest rows
    → IsForest out
create-IsForest category rows out h w = elim (Option-cases category.parent_id) [
  | inl e ↦
      insert_row-IsForest category rows out (subst (λ p. Grounded p rows) (sym e) tt)
        (sym (create-root category rows e) ∙ h) w
  | inr (parent, e) ↦
      let (there, q) =
        below-ok category parent rows out (sym (create-below category parent rows e) ∙ h) in
      insert_row-IsForest category rows out (subst (λ p. Grounded p rows) (sym e) there) q w
]

there-some : {A : Type 0} (o : Option A) → is_there o ≡ true → (a : A) × (o ≡ some a)
there-some none h = cc
there-some (some a) h = (a, refl)

get_all-there :
    (ids : List ℕ) (rows : List Category) (id : ℕ)
    → Ancestors rows id ids
    → (out : List Category) × (get_all ids rows ≡ ok out) × (map (λ c. c.id) out ≡ ids)
unfolding get_by_id row_by_id
get_all-there [] rows id h = ([], refl, refl)
get_all-there (a ∷ ids) rows id h =
    let (out, e, names) = get_all-there ids rows id h.1 in
    let (row, found) = there-some (row_by_id rows a) h.0.0 in
    (
      row ∷ out,
      rw (found, e) refl,
      ap₂ (λ i is. i ∷ is) (by_key-key (λ c. c.id) rows a row found) names,
    )

All-ids :
    (id : ℕ) (rows : List Category)
    → All (λ a. (a == id) ≡ false) (map (λ c. c.id) rows)
    → All (λ c. (c.id == id) ≡ false) rows
All-ids id [] h = tt
All-ids id (row ∷ rows) h = (h.0, All-ids id rows h.1)

-- In a forest of at most 255 categories, the ancestors of each are listed without an error, by the ids
-- that the walk gives, which does not come back to the category.
pub list_ancestors-Ends :
    (rows : List Category) (id : ℕ)
    → length rows < depth_budget
    → IsForest rows
    → is_there (row_by_id rows id) ≡ true
    → (out : List Category) × (list_ancestors id rows ≡ ok out)
      × (ancestor_ids depth_budget rows id ≡ ok (map (λ c. c.id) out))
      × All (λ c. (c.id == id) ≡ false) out
unfolding list_ancestors get_by_id
list_ancestors-Ends rows id small w there =
    let (row, found) = there-some (row_by_id rows id) there in
    let (chain, walked, all) = ancestor_ids-Ends depth_budget rows id small w in
    let (out, got, names) = get_all-there chain rows id all in
    (
      out,
      rw (list_ancestors, get_by_id, found, walked) got,
      walked ∙ ap ok (sym names),
      All-ids id out
          (subst (All (λ a. (a == id) ≡ false)) (sym names) (All-map _ _ (λ a k. k.1) chain all)),
    )
