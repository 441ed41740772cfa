-- ===== src/Storage/Pending/Decide.antt =====
-- What a decision does to the queue: the one row with the id, once.
use thewiki.Prelude.{
  ◌≡◌, refl, sym, ap, ◌∙◌, ℕ, Bool, true, false, not, ◌&&◌, List, [], ◌∷◌, some, arith, ◌++◌,
}
use mathlib.Core.Option.{some-injective}
use thewiki.Prelude.Result.{ok, err, unless-ok, some-ok, ok-injective}
use thewiki.Prelude.Tests.{◌==◌, ==_iff}
use thewiki.Prelude.Text.{codes}
use thewiki.Core.PendingRevision.{PendingRevision, as_str, is_pending}
use thewiki.Storage.Schema.{Db, conflict, database}
use thewiki.Storage.Tables.{update_where, user_exists}
use thewiki.Storage.Pending.{
  decide, DecisionKind, approve, reject, new_status, decided, pending_by_id, flip_row,
}

module _ (kind : DecisionKind) (reviewer now_utc k : ℕ) where
  update-here :
      (rows : List PendingRevision) (row : PendingRevision)
      → pending_by_id rows k ≡ some row
      → is_pending row.status ≡ true
      → pending_by_id
          (update_where
            (λ p. p.id == k && is_pending p.status)
            (decided kind reviewer now_utc)
            rows)
          k
        ≡ some (decided kind reviewer now_utc row)
  unfolding pending_by_id
  update-here [] row h o = cc
  update-here (p ∷ ps) row h o = ground (arith, update-here ps row, ==_iff p.id k)

  update-there :
      (rows : List PendingRevision) (id : ℕ)
      → (id == k) ≡ false
      → pending_by_id
          (update_where
            (λ p. p.id == k && is_pending p.status)
            (decided kind reviewer now_utc)
            rows)
          id
        ≡ pending_by_id rows id
  unfolding pending_by_id
  update-there [] id e = refl
  update-there (p ∷ ps) id e = ground (arith, update-there ps id e, ==_iff p.id k, ==_iff p.id id)

not-false : (b : Bool) → not b ≡ false → b ≡ true
not-false true h = refl
not-false false h = cc

pub decide-ok :
    (id reviewer now_utc : ℕ) (kind : DecisionKind) (db out : Db) (now : PendingRevision)
    → decide id reviewer now_utc kind db ≡ ok (now, out)
    → (row : PendingRevision) × (pending_by_id db.pending_revisions id ≡ some row)
      × (is_pending row.status ≡ true)
      × (now ≡ decided kind reviewer now_utc row)
      × (out ≡ flip_row id kind reviewer now_utc db)
unfolding decide
decide-ok id reviewer now_utc kind db out now h =
    let (row, found, h1) = some-ok (pending_by_id db.pending_revisions id) _ _ _ h in
    let (open_, h2) =
      unless-ok (not (is_pending row.status))
        (conflict (codes "pending revision already " ++ as_str row.status)) _ _ h1 in
    let (there, h3) = unless-ok (not (user_exists db.users reviewer)) database _ _ h2 in
    let (read, again, h4) =
      some-ok (pending_by_id (flip_row id kind reviewer now_utc db).pending_revisions id) _ _ _
        h3 in
    let open_row = not-false (is_pending row.status) open_ in
    let now_is = some-injective _ _ (
      sym (update-here kind reviewer now_utc id db.pending_revisions row found open_row) ∙ again) in
    let pair = ok-injective _ _ h4 in
    (row, found, open_row, sym (ap (λ z. z.0) pair) ∙ sym now_is, sym (ap (λ z. z.1) pair))

decided_row :
    (row : PendingRevision) (db : Db) (id reviewer now_utc : ℕ) (kind : DecisionKind)
    → pending_by_id db.pending_revisions id ≡ some row
    → is_pending row.status ≡ false
    → decide id reviewer now_utc kind db
      ≡ err (conflict (codes "pending revision already " ++ as_str row.status))
unfolding decide
decided_row row db id reviewer now_utc kind found e = rw (found, e, decide)

new_status-decided : (kind : DecisionKind) → is_pending (new_status kind) ≡ false
new_status-decided approve = refl
new_status-decided (reject reason) = refl

-- Whoever decides later, and however, is told that the row is decided.
pub decide_once :
    (id reviewer now_utc : ℕ) (kind : DecisionKind) (db out : Db) (now : PendingRevision)
    → decide id reviewer now_utc kind db ≡ ok (now, out)
    → (later_reviewer later : ℕ) (other : DecisionKind)
    → decide id later_reviewer later other out
      ≡ err (conflict (codes "pending revision already " ++ as_str (new_status kind)))
decide_once id reviewer now_utc kind db out now h later_reviewer later other =
    let (row, found, open_row, is_now, is_out) = decide-ok id reviewer now_utc kind db out now h in
    let there =
      ap (λ d. pending_by_id d.pending_revisions id) is_out
      ∙ update-here kind reviewer now_utc id db.pending_revisions row found open_row in
    decided_row (decided kind reviewer now_utc row) out id later_reviewer later other there
      (new_status-decided kind)

-- A decision leaves every other row as it was.
decide_others :
    (id reviewer now_utc : ℕ) (kind : DecisionKind) (db out : Db) (now : PendingRevision)
    → decide id reviewer now_utc kind db ≡ ok (now, out)
    → (other : ℕ) → (other == id) ≡ false
    → pending_by_id out.pending_revisions other ≡ pending_by_id db.pending_revisions other
decide_others id reviewer now_utc kind db out now h other e =
    let (row, found, open_row, is_now, is_out) = decide-ok id reviewer now_utc kind db out now h in
    ap (λ d. pending_by_id d.pending_revisions other) is_out
    ∙ update-there kind reviewer now_utc id db.pending_revisions other e
