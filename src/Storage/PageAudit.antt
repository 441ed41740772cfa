-- ===== src/Storage/PageAudit.antt =====
-- crates/storage/src/sqlite/page_audit.rs: one mutation of a page and its audit row, in one
-- transaction. An error rolls back, so a commit gives either an error or the new tables.
pub mod Invariant
pub mod Commit
pub mod Published
use thewiki.Prelude.{ℕ, Option, some, none, Bool, true, false, not}
use thewiki.Prelude.Result.{Result, ok, err, and_then}
use thewiki.Prelude.Tests.{◌==◌, if◌then◌else◌}
use thewiki.Prelude.Text.{codes}
use thewiki.Core.Page.{Page}
use thewiki.Core.Revision.{Revision}
use thewiki.Storage.Schema.{Db, StorageError, invalid_input, AuditEntry}
use thewiki.Storage.Tables.{
  eq_option, is_there, insert_page, update_page, insert_revision, delete_page, insert_audit,
}

pub data PageAuditMutation : Type 0 where
  create_page : Page → Option Revision → PageAuditMutation
  commit_revision : Page → Revision → PageAuditMutation
  update : Page → PageAuditMutation
  delete : ℕ → PageAuditMutation
  audit_only : PageAuditMutation

-- The two tests that a promoted revision has to pass.
abbrev check_promoted :
    Page → Revision → StorageError → StorageError → Result StorageError (Unit {0})
check_promoted page revision foreign_page other_head =
    if not (revision.page_id == page.id)
    then err foreign_page
    else if not (eq_option page.current_revision_id revision.id)
    then err other_head
    else ok tt

unfoldable pub validate_mutation : PageAuditMutation → Result StorageError (Unit {0})
validate_mutation (create_page page (some revision)) =
    check_promoted page revision
      (invalid_input (codes "live page create revision must belong to the page"))
      (invalid_input (codes "live page create must promote the supplied revision"))
validate_mutation (create_page page none) =
    if is_there page.current_revision_id
    then err (invalid_input (codes "queued page create must not have a current revision"))
    else ok tt
validate_mutation (commit_revision page revision) =
    check_promoted page revision
      (invalid_input (codes "page revision commit must use a revision for the page"))
      (invalid_input (codes "page revision commit must promote the supplied revision"))
validate_mutation (update page) = ok tt
validate_mutation (delete page_id) = ok tt
validate_mutation audit_only = ok tt

-- The page row is written without a head: its revision needs the row first.
unfoldable pub apply_mutation : PageAuditMutation → Db → Result StorageError Db
apply_mutation (create_page page none) db =
    insert_page (record page { current_revision_id = none }) db
apply_mutation (create_page page (some revision)) db =
    and_then (insert_page (record page { current_revision_id = none }) db) (λ with_page.
      and_then (insert_revision revision with_page)
        (update_page (record page { current_revision_id = some revision.id })))
apply_mutation (commit_revision page revision) db =
    and_then (insert_revision revision db) (update_page page)
apply_mutation (update page) db = update_page page db
apply_mutation (delete page_id) db = delete_page page_id db
apply_mutation audit_only db = ok db

unfoldable pub commit_page_audit : PageAuditMutation → AuditEntry → Db → Result StorageError Db
commit_page_audit mutation audit db =
    and_then (validate_mutation mutation)
      (λ valid. and_then (apply_mutation mutation db) (λ written. ok (insert_audit audit written)))
