-- ===== src/Storage/Pending.antt =====
-- crates/storage/src/sqlite/pending_revision.rs: the approval queue's table.
pub mod Decide
use thewiki.Prelude.{ℕ, ◌+◌, Option, some, none, Bool, true, false, not, ◌&&◌, List, [], ◌∷◌, ◌++◌}
use thewiki.Prelude.Lists.{find, any, length}
use thewiki.Prelude.Result.{Result, ok, err}
use thewiki.Prelude.Tests.{◌==◌, if◌then◌else◌}
use thewiki.Prelude.Text.{Text, codes, trim, text_eq}
use thewiki.Core.PendingRevision.{
  PendingRevision, PendingRevisionStatus, pending, approved, rejected, is_pending, as_str,
}
use thewiki.Storage.Schema.{Db, User, StorageError, not_found, conflict, database}
use thewiki.Storage.Tables.{is_there, user_exists, page_by_id, references, update_where, filter}

pub record NewPendingRevision : Type 0 where
  pub page_id : ℕ
  pub parent_revision_id : Option ℕ
  pub body : Text
  pub author_id : Option ℕ
  pub author_ip : Option Text
  pub comment : Text

unfoldable pub pending_by_id : List PendingRevision → ℕ → Option PendingRevision
pending_by_id rows id = find (λ p. p.id == id) rows

abbrev pub pending_row : ℕ → ℕ → NewPendingRevision → PendingRevision
pending_row fresh_id now_utc row = record {
  id = fresh_id;
  page_id = row.page_id;
  parent_revision_id = row.parent_revision_id;
  body = row.body;
  author_id = row.author_id;
  author_ip = row.author_ip;
  comment = row.comment;
  status = pending;
  reviewer_id = none;
  decided_at = none;
  rejection_reason = none;
  created_at = now_utc;
}

-- The two CHECK lines on the author; SQL's `trim` takes spaces only.
abbrev attribution_ok : NewPendingRevision → Bool
attribution_ok row = elim row.author_ip [
  | none ↦ true
  | some ip ↦ not (is_there row.author_id) && any (λ c. not (c == b' ')) ip
]

abbrev user_ok : Option ℕ → List User → Bool
user_ok none users = true
user_ok (some id) users = user_exists users id

unfoldable pub create : ℕ → ℕ → NewPendingRevision → Db → Result StorageError Db
create fresh_id now_utc row db =
    if not (is_there (pending_by_id db.pending_revisions fresh_id))
      && (attribution_ok row
          && (is_there (page_by_id db.pages row.page_id)
              && (references row.parent_revision_id db.revisions
                  && user_ok row.author_id db.users)))
    then ok
        (record db { pending_revisions = pending_row fresh_id now_utc row ∷ db.pending_revisions })
    else err database

unfoldable pub count_pending : Db → ℕ
count_pending db = length (filter (λ p. is_pending p.status) db.pending_revisions)

pub data DecisionKind : Type 0 where
  approve : DecisionKind
  reject : Text → DecisionKind

abbrev pub new_status : DecisionKind → PendingRevisionStatus
new_status approve = approved
new_status (reject reason) = rejected

abbrev reason_of : DecisionKind → Option Text
reason_of approve = none
reason_of (reject reason) = some reason

abbrev pub decided : DecisionKind → ℕ → ℕ → PendingRevision → PendingRevision
decided kind reviewer now_utc row = record row {
  status = new_status kind;
  reviewer_id = some reviewer;
  decided_at = some now_utc;
  rejection_reason = reason_of kind;
}

-- the update of the rows with the id and the status `pending`
abbrev pub flip_row : ℕ → DecisionKind → ℕ → ℕ → Db → Db
flip_row id kind reviewer now_utc db = record db {
  pending_revisions =
      update_where (λ p. p.id == id && is_pending p.status) (decided kind reviewer now_utc)
        db.pending_revisions;
}

-- The result is the row read again after the commit, beside the new tables.
unfoldable pub decide : ℕ → ℕ → ℕ → DecisionKind → Db → Result StorageError (PendingRevision × Db)
decide id reviewer now_utc kind db = elim (pending_by_id db.pending_revisions id) [
  | none ↦ err not_found
  | some row ↦
      if not (is_pending row.status)
      then err (conflict (codes "pending revision already " ++ as_str row.status))
      else if not (user_exists db.users reviewer)
      then err database
      else let written = flip_row id kind reviewer now_utc db in
        elim (pending_by_id written.pending_revisions id) [
          | none ↦ err not_found
          | some now ↦ ok (now, written)
        ]
]
