-- ===== src/Api/Kept.antt =====
-- What a property of the tables needs so that the requests that delete nothing keep it.
use thewiki.Prelude.{◌≡◌, Bool, true, false}
use thewiki.Storage.Schema.{Db, AuditEntry}
use thewiki.Storage.PageAudit.{
  PageAuditMutation, create_page, commit_revision, update, delete, audit_only, commit_page_audit,
}
use thewiki.Storage.PageAudit.Invariant.{WellFormed}
use thewiki.Storage.PageAudit.Commit.{IsLinear}
use thewiki.Storage.Untouched.{Untouched}
use thewiki.Api.Exec.{World, write}

abbrev pub deletes_nothing : PageAuditMutation → Bool
deletes_nothing (delete page_id) = false
deletes_nothing (create_page page revision) = true
deletes_nothing (commit_revision page revision) = true
deletes_nothing (update page) = true
deletes_nothing audit_only = true

pub record Kept (P : Db → Type 0) : Type 0 where
  pub respects : (db out : Db) → Untouched db out → P db → P out
  pub well_formed : (db : Db) → P db → WellFormed db
  pub commits :
      (m : PageAuditMutation) (audit : AuditEntry) (w : World)
      → deletes_nothing m ≡ true
      → IsLinear m w.db
      → P w.db
      → P (write (commit_page_audit m audit) w).1.db
