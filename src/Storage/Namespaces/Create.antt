-- ===== src/Storage/Namespaces/Create.antt =====
-- That `create` of crates/storage/src/sqlite/namespace.rs keeps the pairs of namespaces and their
-- discussion sides.
use thewiki.Prelude.{
  ◌≡◌, refl, ap, sym, subst, ◌∙◌, ℕ, some, none, true, false, not, ◌&&◌, ◌∷◌, ◌++◌, inl, inr,
}
use thewiki.Prelude.Result.{Result, ok, err, and_then, and_then-ok, Result-cases}
use thewiki.Prelude.Text.{Text, codes, text_eq}
use thewiki.Core.NamespaceSlug.{new}
use thewiki.Prelude.Tests.{◌==◌, ==_iff, ==_refl, if◌then◌else◌, Option-cases}
use thewiki.Core.Page.{Namespace}
use thewiki.Storage.Schema.{StorageError, not_found, conflict, database, invalid_input}
use thewiki.Storage.Tables.{update_where, is_there}
use thewiki.Storage.Tables.Lookup.{Distinct, by_key-found}
use thewiki.Storage.Namespaces.{
  Rows, row_by_id, row_by_slug, pair_taken, insert_row_tx, with_pair, set_pair_tx, reuse, link,
  create, build_talk_pair,
}
use thewiki.Storage.Namespaces.Pairs.{
  pair_of, Paired, pair_of-cons, pair_of-absent, pair_of-set, pair_of-taken, insert_row_tx-ok,
  insert-Distinct, row_by_id-cons, is_there-set, set_pair_tx-ok, set-Distinct,
}
use native.Mathlib.Omega.{arith}

-- The table is paired, and the namespace has a pair.
abbrev pub Joined : ℕ → Rows → Type 0
Joined id rows = Paired rows × (is_there (pair_of rows id) ≡ true)

pub insert-Paired :
    (row : Namespace) (rows : Rows)
    → row.paired_namespace_id ≡ none
    → row_by_id rows row.id ≡ none
    → Paired rows
    → Paired (row ∷ rows)
insert-Paired row rows alone absent w = record {
  distinct = insert-Distinct row rows absent w.distinct;
  symmetric = λ a b p. ground (
    arith,
    pair_of-cons row rows a,
    pair_of-cons row rows b,
    w.symmetric a b,
    p,
    alone,
    pair_of-absent rows row.id absent,
    ==_iff row.id a,
    ==_iff row.id b,
  );
}

-- The talk row is new: it names the subject, and then the subject names it.
link_new :
    (subject talk : Namespace) (rows : Rows)
    → talk.paired_namespace_id ≡ some subject.id
    → row_by_id rows talk.id ≡ none
    → is_there (row_by_id rows subject.id) ≡ true
    → pair_of rows subject.id ≡ none
    → Paired rows
    → Joined subject.id (update_where (λ n. n.id == subject.id) (with_pair talk.id) (talk ∷ rows))
link_new subject talk rows names absent there alone w =
    let view : (a : ℕ)
        → pair_of (update_where (λ n. n.id == subject.id) (with_pair talk.id) (talk ∷ rows)) a ≡ (
            if a == subject.id
            then some talk.id
            else if talk.id == a
            then some subject.id
            else pair_of rows a) =
      (λ a. ground (
        arith,
        pair_of-set subject.id talk.id (talk ∷ rows) a,
        pair_of-cons talk rows a,
        row_by_id-cons talk rows a,
        names,
        there,
        ==_iff a subject.id,
      )) in
    (
      record {
        distinct =
            set-Distinct subject.id talk.id (talk ∷ rows)
              (insert-Distinct talk rows absent w.distinct);
        symmetric = λ a b p. ground (
          arith,
          view a,
          view b,
          w.symmetric a b,
          p,
          pair_of-absent rows talk.id absent,
          alone,
          ==_iff a subject.id,
          ==_iff b subject.id,
          ==_iff talk.id a,
          ==_iff talk.id b,
        );
      },
      ground (arith, view subject.id, ==_refl subject.id),
    )

-- The talk row was there, with no pair: it and the subject name each other.
link_old :
    (subject existing : ℕ) (rows : Rows)
    → is_there (row_by_id rows subject) ≡ true
    → is_there (row_by_id rows existing) ≡ true
    → pair_of rows subject ≡ none
    → pair_of rows existing ≡ none
    → Paired rows
    → Joined subject (
        update_where
          (λ n. n.id == subject)
          (with_pair existing)
          (update_where (λ n. n.id == existing) (with_pair subject) rows))
link_old subject existing rows there found alone free w =
    let half = update_where (λ n. n.id == existing) (with_pair subject) rows in
    let view : (a : ℕ)
        → pair_of (update_where (λ n. n.id == subject) (with_pair existing) half) a ≡ (
            if a == subject
            then some existing
            else if a == existing
            then some subject
            else pair_of rows a) =
      (λ a. ground (
        arith,
        pair_of-set subject existing half a,
        pair_of-set existing subject rows a,
        is_there-set existing subject rows a,
        there,
        found,
        ==_iff a subject,
        ==_iff a existing,
      )) in
    (
      record {
        distinct =
            set-Distinct subject existing half (set-Distinct existing subject rows w.distinct);
        symmetric = λ a b p. ground (
          arith,
          view a,
          view b,
          w.symmetric a b,
          p,
          alone,
          free,
          ==_iff a subject,
          ==_iff b subject,
          ==_iff existing a,
          ==_iff existing b,
          ==_iff a existing,
          ==_iff b existing,
        );
      },
      ground (arith, view subject, ==_refl subject),
    )

-- Which row the slug finds.
pub row_by_slug-id :
    (rows : Rows) (slug : Text) (row : Namespace)
    → Distinct (λ n. n.id) rows
    → row_by_slug rows slug ≡ some row
    → row_by_id rows row.id ≡ some row
unfolding row_by_slug row_by_id
row_by_slug-id rows slug row d h = by_key-found (λ n. n.id) (λ n. text_eq n.slug slug) rows row d h

pub pair_of-found :
    (rows : Rows) (id : ℕ) (row : Namespace)
    → row_by_id rows id ≡ some row
    → pair_of rows id ≡ row.paired_namespace_id
unfolding pair_of
pair_of-found rows id row h = rw h refl

-- Somebody is paired with the row already, so that the subject may not be.
pub reuse_taken :
    (subject existing q : ℕ) (rows : Rows)
    → pair_of rows existing ≡ some q
    → pair_taken subject existing rows ≡ false
    → Paired rows
    → pair_of rows subject ≡ some existing
reuse_taken subject existing q rows paired free w =
    ap (pair_of rows)
      (sym (pair_of-taken subject existing rows q free (w.symmetric existing q paired)))
    ∙ w.symmetric existing q paired

reuse-absent :
    (subject : Namespace) (slug : Text) (rows : Rows)
    → row_by_slug rows slug ≡ none
    → reuse subject slug rows ≡ err not_found
unfolding reuse
reuse-absent subject slug rows e = rw (reuse, e) refl

reuse-free :
    (subject existing : Namespace) (slug : Text) (rows : Rows)
    → row_by_slug rows slug ≡ some existing
    → existing.paired_namespace_id ≡ none
    → reuse subject slug rows
      ≡ and_then (set_pair_tx existing.id subject.id rows) (set_pair_tx subject.id existing.id)
unfolding reuse
reuse-free subject existing slug rows e free = rw (reuse, e, free) refl

pub reuse-paired :
    (subject existing : Namespace) (slug : Text) (rows : Rows) (q : ℕ)
    → row_by_slug rows slug ≡ some existing
    → existing.paired_namespace_id ≡ some q
    → reuse subject slug rows ≡ set_pair_tx subject.id existing.id rows
unfolding reuse
reuse-paired subject existing slug rows q e taken = rw (reuse, e, taken) refl

reuse-Joined :
    (subject : Namespace) (slug : Text) (rows out : Rows)
    → is_there (row_by_id rows subject.id) ≡ true
    → pair_of rows subject.id ≡ none
    → reuse subject slug rows ≡ ok out
    → Paired rows
    → Joined subject.id out
reuse-Joined subject slug rows out there alone h w = elim (Option-cases (row_by_slug rows slug)) [
  | inl e ↦ ground (arith, reuse-absent subject slug rows e, h)
  | inr (existing, e) ↦
      let found = row_by_slug-id rows slug existing w.distinct e in
      let present : is_there (row_by_id rows existing.id) ≡ true = ap is_there found in
      elim (Option-cases existing.paired_namespace_id) [
        | inl free ↦
            let (half, first, second) =
              and_then-ok (set_pair_tx existing.id subject.id rows)
                (set_pair_tx subject.id existing.id) out
                (sym (reuse-free subject existing slug rows e free) ∙ h) in
            let (_, p) = set_pair_tx-ok existing.id subject.id rows half present first in
            let set = update_where (λ n. n.id == existing.id) (with_pair subject.id) rows in
            let (_, q) =
              set_pair_tx-ok subject.id existing.id set out
                (is_there-set existing.id subject.id rows subject.id ∙ there)
                (ap (set_pair_tx subject.id existing.id) (sym p) ∙ second) in
            subst (Joined subject.id) (sym q) (
              link_old subject.id existing.id rows there present alone
                (pair_of-found rows existing.id existing found ∙ free) w)
        | inr (q, taken) ↦
            let (free, _) =
              set_pair_tx-ok subject.id existing.id rows out there
                (sym (reuse-paired subject existing slug rows q e taken) ∙ h) in
            ground (
              arith,
              alone,
              reuse_taken subject.id existing.id q rows
                  (pair_of-found rows existing.id existing found ∙ taken) free w,
            )
      ]
]

build_talk_pair-ok :
    (fresh_id : ℕ) (subject talk : Namespace)
    → build_talk_pair fresh_id subject ≡ ok talk
    → talk.paired_namespace_id ≡ some subject.id
unfolding build_talk_pair
build_talk_pair-ok fresh_id subject talk h =
    elim (Result-cases (new (codes "Talk_" ++ subject.slug))) [
      | inl (slug, e) ↦ ground (arith, e, h)
      | inr (e, f) ↦ ground (arith, f, h)
    ]

link_err-Joined :
    (subject talk : Namespace) (rows out : Rows) (e : StorageError)
    → is_there (row_by_id rows subject.id) ≡ true
    → pair_of rows subject.id ≡ none
    → link subject talk rows (err e) ≡ ok out
    → Paired rows
    → Joined subject.id out
link_err-Joined subject talk rows out (conflict message) there alone h w =
    reuse-Joined subject talk.slug rows out there alone h w
link_err-Joined subject talk rows out not_found there alone h w = cc
link_err-Joined subject talk rows out database there alone h w = cc
link_err-Joined subject talk rows out (invalid_input message) there alone h w = cc

link-Joined :
    (subject talk : Namespace) (rows out : Rows)
    → talk.paired_namespace_id ≡ some subject.id
    → is_there (row_by_id rows subject.id) ≡ true
    → pair_of rows subject.id ≡ none
    → link subject talk rows (insert_row_tx talk rows) ≡ ok out
    → Paired rows
    → Joined subject.id out
link-Joined subject talk rows out names there alone h w =
    elim (Result-cases (insert_row_tx talk rows)) [
      | inr (e, f) ↦
          link_err-Joined subject talk rows out e there alone
            (ap (link subject talk rows) (sym f) ∙ h) w
      | inl (inserted, f) ↦
          let (absent, p) = insert_row_tx-ok talk rows inserted f in
          let (_, q) =
            set_pair_tx-ok subject.id talk.id (talk ∷ rows) out
              (ground (arith, row_by_id-cons talk rows subject.id, there))
              (ap (set_pair_tx subject.id talk.id) (sym p)
                ∙ ap (link subject talk rows) (sym f)
                ∙ h) in
          subst (Joined subject.id) (sym q) (link_new subject talk rows names absent there alone w)
    ]

-- A subject namespace is created with its discussion side, or not at all: if a creation that names no
-- pair succeeds, pairs go both ways after it as they did before, and the new namespace has one.
pub create-Paired :
    (fresh_id : ℕ) (namespace : Namespace) (rows out : Rows)
    → namespace.is_talk ≡ false
    → namespace.paired_namespace_id ≡ none
    → create fresh_id namespace rows ≡ ok out
    → Paired rows
    → Joined namespace.id out
unfolding create
create-Paired fresh_id namespace rows out subject alone h w =
    let (inserted, first, second) = and_then-ok (insert_row_tx namespace rows) _ out h in
    let (absent, p) = insert_row_tx-ok namespace rows inserted first in
    let paired : Rows → Result StorageError Rows = (λ made.
      and_then (build_talk_pair fresh_id namespace)
        (λ talk. link namespace talk made (insert_row_tx talk made))) in
    let is_subject : (not namespace.is_talk && not (is_there namespace.paired_namespace_id))
        ≡ true =
      rw (subject, alone) refl in
    let opened : paired (namespace ∷ rows) ≡ ok out =
      subst (λ made. paired made ≡ ok out) p
        (ap (λ b. if b then paired inserted else ok inserted) (sym is_subject) ∙ second) in
    let (talk, built, linked) =
      and_then-ok (build_talk_pair fresh_id namespace)
        (λ talk. link namespace talk (namespace ∷ rows) (insert_row_tx talk (namespace ∷ rows))) out
        opened in
    link-Joined namespace talk (namespace ∷ rows) out
      (build_talk_pair-ok fresh_id namespace talk built)
      (ground (arith, row_by_id-cons namespace rows namespace.id, ==_refl namespace.id))
      (ground (arith, pair_of-cons namespace rows namespace.id, ==_refl namespace.id, alone)) linked
      (insert-Paired namespace rows alone absent w)
