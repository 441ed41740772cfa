-- ===== src/Storage/Tests.antt =====
-- The storage's properties at a wiki with one page and one queued edit.
use thewiki.Prelude.{◌≡◌, refl, [], ◌∷◌, ◌++◌, some, none, false, ℕ}
use thewiki.Prelude.Result.{ok, err}
use thewiki.Prelude.Text.{codes, text_eq}
use thewiki.Core.Page.{Page, Namespace, markdown}
use thewiki.Core.PendingRevision.{PendingRevision, pending, as_str, approved}
use thewiki.Core.Protection.{ProtectionLevel}
use thewiki.Core.Revision.{Revision}
use thewiki.Storage.Schema.{Db, AuditEntry, conflict}
use thewiki.Storage.Tables.{
  page_by_id, page_by_slug, revision_by_id, insert_page, update_page, insert_revision, delete_page,
  insert_audit, user_exists,
}
use thewiki.Storage.PageAudit.{create_page, validate_mutation, apply_mutation, commit_page_audit}
use thewiki.Storage.PageAudit.Invariant.{WellFormed}
use thewiki.Storage.PageAudit.Commit.{commit_page_audit-WellFormed}
use thewiki.Storage.Pending.{decide, approve, reject, pending_by_id, decided, flip_row}
use thewiki.Storage.Pending.Decide.{decide_once}

storing : Unit {0}
unfolding text_eq page_by_id page_by_slug revision_by_id insert_page update_page insert_revision
    delete_page insert_audit user_exists validate_mutation apply_mutation commit_page_audit decide
    pending_by_id
storing = tt

abbrev pub main_space : Namespace
main_space = record {
  id = 1;
  slug = codes "Main";
  display_name = codes "Main";
  is_talk = false;
  paired_namespace_id = none;
}

abbrev pub empty_db : Db
empty_db = record {
  namespaces = main_space ∷ [];
  users =
      record { id = 7; username = codes "alice" } ∷ record { id = 8; username = codes "bob" } ∷ [];
  pages = [];
  revisions = [];
  pending_revisions = [];
  audit_log = [];
  page_links = [];
  categories = [];
  page_categories = [];
  page_tags = [];
  notifications = [];
}

pub empty_db-WellFormed : WellFormed empty_db
empty_db-WellFormed = record {
  pages_distinct = tt;
  revisions_distinct = tt;
  heads = λ p page r h e. cc;
  parents = λ id rev q h e. cc;
}

abbrev pub start_page : Page
start_page = record {
  id = 10;
  namespace_id = 1;
  slug = codes "start";
  title = codes "Start";
  current_revision_id = some 20;
  content_format = markdown;
  protection_level = ProtectionLevel.none;
  created_at = 100;
  updated_at = 100;
}

abbrev first_revision : Revision
first_revision = record {
  id = 20;
  page_id = 10;
  parent_id = none;
  author_id = 7;
  body = codes "hello";
  edit_summary = none;
  created_at = 100;
}

abbrev entry : AuditEntry
entry = record {
  actor_id = 7;
  actor_username = codes "alice";
  action = codes "page.create";
  target_kind = codes "page";
  target_id = 10;
  target_label = none;
  metadata = [];
}

abbrev pub one_page : Db
one_page = record empty_db {
  pages = start_page ∷ [];
  revisions = first_revision ∷ [];
  audit_log = entry ∷ [];
}

create_one :
    commit_page_audit (create_page start_page (some first_revision)) entry empty_db ≡ ok one_page
unfolding storing
create_one = refl

commit_page_audit-WellFormed_example : WellFormed one_page
commit_page_audit-WellFormed_example =
    commit_page_audit-WellFormed (create_page start_page (some first_revision)) entry empty_db
      one_page (λ q e. cc) create_one empty_db-WellFormed

abbrev pub queued_edit : ℕ → PendingRevision
queued_edit k = record {
  id = k;
  page_id = 10;
  parent_revision_id = some 20;
  body = codes "hello world";
  author_id = some 7;
  author_ip = none;
  comment = codes "";
  status = pending;
  reviewer_id = none;
  decided_at = none;
  rejection_reason = none;
  created_at = 110;
}

abbrev pub one_queued : Db
one_queued = record one_page { pending_revisions = queued_edit 30 ∷ queued_edit 31 ∷ [] }

abbrev approved_row : PendingRevision
approved_row = decided approve 8 120 (queued_edit 30)

abbrev one_approved : Db
one_approved = flip_row 30 approve 8 120 one_queued

approve_one : decide 30 8 120 approve one_queued ≡ ok (approved_row, one_approved)
unfolding storing
approve_one = refl

decide_once_example :
    decide 30 7 130 (reject (codes "no")) one_approved
    ≡ err (conflict (codes "pending revision already " ++ as_str approved))
decide_once_example =
    decide_once 30 8 120 approve one_queued one_approved approved_row approve_one 7 130
      (reject (codes "no"))
