-- ===== src/Storage/Namespaces/Pairs.antt =====
-- Who is paired with whom after each statement of crates/storage/src/sqlite/namespace.rs.
use thewiki.Prelude.{
  ◌≡◌, refl, ap, sym, subst, ◌∙◌, ℕ, Option, some, none, true, false, not, List, [], ◌∷◌, map, inl,
  inr,
}
use thewiki.Prelude.Result.{ok}
use thewiki.Prelude.Tests.{◌==◌, if◌then◌else◌, Bool-cases, Option-cases}
use thewiki.Core.Page.{Namespace, Page}
use thewiki.Storage.Tables.{filter, update_where, is_there, clear_if}
use thewiki.Storage.Tables.Lookup.{
  Distinct, by_key-update, Distinct-update, Distinct-map, Distinct-filter,
}
use thewiki.Storage.Namespaces.{
  Rows, row_by_id, pair_taken, insert_row_tx, with_pair, set_pair_tx, unpair, delete,
}
use native.Mathlib.Omega.{arith}

abbrev pub pair_in : Option Namespace → Option ℕ
pair_in none = none
pair_in (some row) = row.paired_namespace_id

unfoldable pub pair_of : Rows → ℕ → Option ℕ
pair_of rows id = pair_in (row_by_id rows id)

-- Pairs go both ways.
abbrev pub Symmetric : Rows → Type 0
Symmetric rows = (a b : ℕ) → pair_of rows a ≡ some b → pair_of rows b ≡ some a

pub pair_of-cons :
    (row : Namespace) (rows : Rows) (id : ℕ)
    → pair_of (row ∷ rows) id ≡ (if row.id == id then row.paired_namespace_id else pair_of rows id)
unfolding pair_of row_by_id
pair_of-cons row rows id = ground arith

pub pair_of-absent : (rows : Rows) (id : ℕ) → row_by_id rows id ≡ none → pair_of rows id ≡ none
unfolding pair_of
pair_of-absent rows id h = rw h refl

pub pair_of-set :
    (id paired : ℕ) (rows : Rows) (a : ℕ)
    → pair_of (update_where (λ n. n.id == id) (with_pair paired) rows) a ≡ (
        if a == id
        then (if is_there (row_by_id rows a) then some paired else none)
        else pair_of rows a)
unfolding pair_of row_by_id
pair_of-set id paired rows a =
    ap pair_in (by_key-update (λ n. n.id) (with_pair paired) id (λ n. refl) rows a) ∙ ground arith

-- Nobody else may have the pair.
pub pair_of-taken :
    (id paired : ℕ) (rows : Rows) (a : ℕ)
    → pair_taken id paired rows ≡ false
    → pair_of rows a ≡ some paired
    → a ≡ id
unfolding pair_of row_by_id pair_taken
pair_of-taken id paired [] a h e = ground arith
pair_of-taken id paired (row ∷ rows) a h e = ground (arith, pair_of-taken id paired rows a)

pub record Paired (rows : Rows) : Type 0 where
  pub distinct : Distinct (λ n. n.id) rows
  pub symmetric : Symmetric rows

-- What an insertion that succeeds says.
pub insert_row_tx-ok :
    (row : Namespace) (rows out : Rows)
    → insert_row_tx row rows ≡ ok out
    → (row_by_id rows row.id ≡ none) × (out ≡ row ∷ rows)
unfolding insert_row_tx
insert_row_tx-ok row rows out h = elim (Option-cases (row_by_id rows row.id)) [
  | inr (found, e) ↦ ground (arith, e)
  | inl e ↦ elim (Option-cases row.paired_namespace_id) [
    | inl p ↦ (e, ground (arith, e, p))
    | inr (paired, p) ↦ (e, ground (arith, e, p))
  ]
]

pub insert-Distinct :
    (row : Namespace) (rows : Rows)
    → row_by_id rows row.id ≡ none
    → Distinct (λ n. n.id) rows
    → Distinct (λ n. n.id) (row ∷ rows)
unfolding row_by_id
insert-Distinct row rows absent d = (absent, d)

pub row_by_id-cons :
    (row : Namespace) (rows : Rows) (id : ℕ)
    → row_by_id (row ∷ rows) id ≡ (if row.id == id then some row else row_by_id rows id)
unfolding row_by_id
row_by_id-cons row rows id = ground arith

pub is_there-set :
    (id paired : ℕ) (rows : Rows) (a : ℕ)
    → is_there (row_by_id (update_where (λ n. n.id == id) (with_pair paired) rows) a)
      ≡ is_there (row_by_id rows a)
unfolding row_by_id
is_there-set id paired rows a =
    ap is_there (by_key-update (λ n. n.id) (with_pair paired) id (λ n. refl) rows a) ∙ ground arith

pub set_pair_tx-ok :
    (id paired : ℕ) (rows out : Rows)
    → is_there (row_by_id rows id) ≡ true
    → set_pair_tx id paired rows ≡ ok out
    → (pair_taken id paired rows ≡ false)
      × (out ≡ update_where (λ n. n.id == id) (with_pair paired) rows)
unfolding set_pair_tx
set_pair_tx-ok id paired rows out there h = elim (Bool-cases (pair_taken id paired rows)) [
  | inl e ↦ ground (arith, e, there)
  | inr e ↦ (e, ground (arith, e, there))
]

pub set-Distinct :
    (id paired : ℕ) (rows : Rows)
    → Distinct (λ n. n.id) rows
    → Distinct (λ n. n.id) (update_where (λ n. n.id == id) (with_pair paired) rows)
set-Distinct id paired rows d = Distinct-update (λ n. n.id) (with_pair paired) id (λ n. refl) rows d

pub pair_of-delete :
    (id : ℕ) (rows : Rows) (a : ℕ)
    → pair_of (map (unpair id) (filter (λ n. not (n.id == id)) rows)) a
      ≡ (if a == id then none else clear_if (λ p. p == id) (pair_of rows a))
unfolding pair_of row_by_id
pair_of-delete id [] a = ground arith
pair_of-delete id (row ∷ rows) a = ground (arith, pair_of-delete id rows a)

pub delete-Paired :
    (id : ℕ) (pages : List Page) (rows out : Rows)
    → delete id pages rows ≡ ok out
    → Paired rows
    → Paired out
unfolding delete
delete-Paired id pages rows out h w =
    let e : out ≡ map (unpair id) (filter (λ n. not (n.id == id)) rows) = ground arith in
    subst Paired (sym e) (record {
      distinct =
          Distinct-map (λ n. n.id) (unpair id) (λ n. refl) (filter (λ n. not (n.id == id)) rows)
            (Distinct-filter (λ n. n.id) (λ n. not (n.id == id)) rows w.distinct);
      symmetric = λ a b p.
          ground (arith, pair_of-delete id rows a, pair_of-delete id rows b, w.symmetric a b, p);
    })
