-- ===== src/Core/PendingRevision.antt =====
-- `PendingRevision` and its status of crates/core/src/pending_revision.rs.
use thewiki.Prelude.{ℕ, Option, some, none, Bool, true, false}
use thewiki.Prelude.Tests.{if◌then◌else◌}
use thewiki.Prelude.Text.{Text, codes, text_eq}

pub data PendingRevisionStatus : Type 0 where
  pending : PendingRevisionStatus
  approved : PendingRevisionStatus
  rejected : PendingRevisionStatus

abbrev pub as_str : PendingRevisionStatus → Text
as_str pending = codes "pending"
as_str approved = codes "approved"
as_str rejected = codes "rejected"

unfoldable pub parse : Text → Option PendingRevisionStatus
parse s =
    if text_eq s (codes "pending")
    then some pending
    else if text_eq s (codes "approved")
    then some approved
    else if text_eq s (codes "rejected")
    then some rejected
    else none

abbrev pub is_pending : PendingRevisionStatus → Bool
is_pending pending = true
is_pending approved = false
is_pending rejected = false

pub record PendingRevision : Type 0 where
  pub id : ℕ
  pub page_id : ℕ
  pub parent_revision_id : Option ℕ
  pub body : Text
  pub author_id : Option ℕ
  pub author_ip : Option Text
  pub comment : Text
  pub status : PendingRevisionStatus
  pub reviewer_id : Option ℕ
  pub decided_at : Option ℕ
  pub rejection_reason : Option Text
  pub created_at : ℕ
