-- ===== src/Storage/Schema.antt =====
-- The tables of migrations/*.sql that the page workflow touches, a row as the record of
-- crates/core/src that it decodes to, and the errors of crates/storage/src/error.rs. Newer rows stand
-- first. A row that refers to no other table's row by a foreign key keeps its id as data.
use thewiki.Prelude.{ℕ, Option, List, Bool}
use thewiki.Prelude.Text.{Text}
use thewiki.Core.Page.{Page, Namespace}
use thewiki.Core.Revision.{Revision}
use thewiki.Core.PendingRevision.{PendingRevision}

pub data StorageError : Type 0 where
  not_found : StorageError
  conflict : Text → StorageError
  database : StorageError
  invalid_input : Text → StorageError

-- The `serde_json::Value`s that the audit rows and the notifications hold.
pub data Json : Type 0 where
  flag : Bool → Json
  uuid : ℕ → Json
  string : Text → Json

abbrev pub Metadata : Type 0
Metadata = List (Text × Json)

-- `NewAuditLogEntry`; the row's own id and time are never read by the code modelled.
pub record AuditEntry : Type 0 where
  pub actor_id : ℕ
  pub actor_username : Text
  pub action : Text
  pub target_kind : Text
  pub target_id : ℕ
  pub target_label : Option Text
  pub metadata : Metadata

pub record PageLink : Type 0 where
  pub source_page_id : ℕ
  pub target_namespace_slug : Text
  pub target_page_slug : Text

pub record Notification : Type 0 where
  pub user_id : ℕ
  pub kind : Text
  pub payload : Metadata

-- Of a user, only what identifies the row.
pub record User : Type 0 where
  pub id : ℕ
  pub username : Text

pub record Db : Type 0 where
  pub namespaces : List Namespace
  pub users : List User
  pub pages : List Page
  pub revisions : List Revision
  pub pending_revisions : List PendingRevision
  pub audit_log : List AuditEntry
  pub page_links : List PageLink
  pub categories : List ℕ
  pub page_categories : List (ℕ × ℕ)
  pub page_tags : List (ℕ × Text)
  pub notifications : List Notification
