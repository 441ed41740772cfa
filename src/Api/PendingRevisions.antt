-- ===== src/Api/PendingRevisions.antt =====
-- The reviewers' handlers of crates/api/src/pending_revisions/routes.rs, and
-- `ensure_anonymous_user` of extractors.rs.
pub mod Tables
pub mod Approved
pub mod Lifecycle
use thewiki.Prelude.{ℕ, ◌+◌, Option, some, none, Bool, true, false, not, [], ◌∷◌, ◌++◌}
use thewiki.Prelude.Result.{Result, ok, err, and_then, map_err}
use thewiki.Prelude.Tests.{◌==◌, if◌then◌else◌}
use thewiki.Prelude.Text.{Text, codes, text_eq, trim}
use thewiki.Core.Page.{Page, Namespace}
use thewiki.Core.Permissions.{intersects, review_edits, manage_users}
use thewiki.Core.PendingRevision.{
  PendingRevision, PendingRevisionStatus, pending, approved, rejected, is_pending,
}
use thewiki.Core.Revision.{Revision}
use thewiki.Storage.Schema.{
  Db, StorageError, User, string, uuid, flag, AuditEntry, Notification, Metadata,
}
use thewiki.Storage.PageAudit.{commit_page_audit, commit_revision}
use thewiki.Storage.Pending.{pending_by_id, decide, DecisionKind}
use thewiki.Storage.Relations.{namespace_by_id, notify, create_user}
use thewiki.Storage.Tables.{page_by_id, user_exists, insert_audit}
use thewiki.Api.Editor.{Editor}
use thewiki.Api.Exec.{
  ApiError, not_found, forbidden, conflict, invalid_input, from_storage, World, Exec, resume, ◌>>=◌,
  pure, write, query, transact, attempt,
}
use thewiki.Api.Pages.{Env, page_label, page_event, update_page_links}

unfoldable pub require_review : Editor → Result ApiError (Unit {0})
require_review actor =
    if intersects actor.permissions (review_edits + manage_users) then ok tt else err forbidden

abbrev pub debug_name : PendingRevisionStatus → Text
debug_name pending = codes "Pending"
debug_name approved = codes "Approved"
debug_name rejected = codes "Rejected"

abbrev is_author : Option ℕ → ℕ → Bool
is_author none user = false
is_author (some author) user = author == user

-- The row is pending, and another user's.
unfoldable pub open_to : Editor → PendingRevision → Result ApiError PendingRevision
open_to actor row =
    if not (is_pending row.status)
    then err (conflict (codes "pending revision already " ++ debug_name row.status))
    else if is_author row.author_id actor.user_id
    then err forbidden
    else ok row

abbrev pub found : {A : Type 0} → Option A → Result ApiError A
found none = err not_found
found (some a) = ok a

unfoldable pub reviewable : Editor → ℕ → Db → Result ApiError PendingRevision
reviewable actor id db = and_then (found (pending_by_id db.pending_revisions id)) (open_to actor)

unfoldable pub page_and_namespace : ℕ → Db → Result ApiError (Page × Namespace)
page_and_namespace page_id db = and_then (found (page_by_id db.pages page_id)) (λ page.
    and_then (map_err from_storage (namespace_by_id page.namespace_id db))
      (λ namespace. ok (page, namespace)))

-- Somebody else's insertion, or another user's name, counts as success.
abbrev pub provisioned : ℕ → Result StorageError Db → World → Result ApiError ℕ × World
provisioned uid (ok db) w = (ok uid, record w { db = db })
provisioned uid (err (StorageError.conflict message)) w = (ok uid, w)
provisioned uid (err e) w = (err (from_storage e), w)

abbrev pub anonymous_user : ℕ → User
anonymous_user uid = record { id = uid; username = codes "Anonymous" }

unfoldable pub ensure_anonymous_user : ℕ → Exec ℕ
ensure_anonymous_user uid w =
    if user_exists w.db.users uid
    then (ok uid, w)
    else provisioned uid (create_user (anonymous_user uid) w.db) w

unfoldable pub promoted_author : ℕ → Option ℕ → Exec ℕ
promoted_author uid none = ensure_anonymous_user uid
promoted_author uid (some id) = pure id

abbrev pub promoted_revision : Env → PendingRevision → Page → ℕ → Revision
promoted_revision env row page author = record {
  id = env.fresh_revision;
  page_id = page.id;
  parent_id = page.current_revision_id;
  author_id = author;
  body = row.body;
  edit_summary = if text_eq row.comment [] then none else some row.comment;
  created_at = env.now_utc;
}

abbrev pub promoted_page : Env → Page → Page
promoted_page env page = record page {
  current_revision_id = some env.fresh_revision;
  updated_at = env.now_utc;
}

abbrev pub approve_audit : Env → Editor → PendingRevision → Page → Namespace → AuditEntry
approve_audit env actor row page namespace =
    page_event actor.user_id actor.username (codes "pending_revision.approve") page.id
      (page_label namespace page)
      ((codes "namespace", string namespace.slug)
        ∷ (codes "slug", string page.slug)
        ∷ (codes "live", flag true)
        ∷ (codes "from_pending", uuid row.id)
        ∷ (codes "revision_id", uuid env.fresh_revision)
        ∷ (codes "reviewer", string actor.username)
        ∷ [])

abbrev notice : Text → PendingRevision → Page → Namespace → Metadata → ℕ → Notification
notice topic row page namespace more author = record {
  user_id = author;
  kind = topic;
  payload =
      (codes "pending_revision_id", uuid row.id)
      ∷ (codes "page_id", uuid page.id)
      ∷ (codes "namespace_slug", string namespace.slug)
      ∷ (codes "page_slug", string page.slug)
      ∷ (codes "page_title", string page.title)
      ∷ more;
}

unfoldable pub notify_author : Option ℕ → (ℕ → Notification) → Exec (Unit {0})
notify_author none message = pure tt
notify_author (some author) message = attempt (write (notify (message author)))

-- what follows the commit of an approved edit
unfoldable pub promote_rest :
    Env → Editor → PendingRevision → Page × Namespace → PendingRevision → Exec PendingRevision
promote_rest env actor row (page, namespace) updated =
    update_page_links env page.id namespace.slug row.body >>= λ linked.
    notify_author row.author_id (
      notice (codes "pending_revision_approved") row page namespace (
        (codes "reviewer_username", string actor.username)
        ∷ (codes "new_revision_id", uuid env.fresh_revision)
        ∷ []))
    >>= λ told. pure updated

-- After the row is approved: the revision, its links, the notice.
unfoldable pub promote :
    Env → Editor → PendingRevision → ℕ → Page × Namespace → PendingRevision → Exec PendingRevision
promote env actor row author place updated =
    write (
      commit_page_audit
        (commit_revision (promoted_page env place.0) (promoted_revision env row place.0 author))
        (approve_audit env actor row place.0 place.1))
    >>= λ committed. promote_rest env actor row place updated

-- The row is approved first: what fails after that leaves no row that could be approved again.
unfoldable pub approve_pending : Env → ℕ → Editor → ℕ → Exec PendingRevision
approve_pending env anonymous actor id = query (λ db. require_review actor) >>= λ may.
    query (reviewable actor id) >>= λ row. promoted_author anonymous row.author_id >>= λ author.
    query (page_and_namespace row.page_id) >>= λ place.
    transact (decide id actor.user_id env.now_utc DecisionKind.approve)
    >>= promote env actor row author place

abbrev reject_audit : Editor → Text → PendingRevision → Page → Namespace → AuditEntry
reject_audit actor reason row page namespace = record {
  actor_id = actor.user_id;
  actor_username = actor.username;
  action = codes "pending_revision.reject";
  target_kind = codes "pending_revision";
  target_id = row.id;
  target_label = some (page_label namespace page);
  metadata =
      (codes "page_id", uuid page.id)
      ∷ (codes "namespace_slug", string namespace.slug)
      ∷ (codes "page_slug", string page.slug)
      ∷ (codes "reason", string reason)
      ∷ [];
}

-- After the row is rejected: the audit row and the notice.
unfoldable pub record_rejection :
    Editor → Text → PendingRevision → PendingRevision → Exec PendingRevision
record_rejection actor reason row updated = query (page_and_namespace row.page_id) >>= λ place.
    write (λ db. ok (insert_audit (reject_audit actor reason row place.0 place.1) db)) >>= λ logged.
    notify_author row.author_id (
      notice (codes "pending_revision_rejected") row place.0 place.1
        ((codes "reason", string reason) ∷ (codes "reviewer_username", string actor.username) ∷ []))
    >>= λ told. pure updated

abbrev stated : Text → Result ApiError Text
stated reason =
    if text_eq (trim reason) []
    then err (invalid_input (codes "reason must not be empty"))
    else ok (trim reason)

unfoldable pub reject_pending : Env → Editor → ℕ → Text → Exec PendingRevision
reject_pending env actor id raw_reason = query (λ db. require_review actor) >>= λ may.
    query (λ db. stated raw_reason) >>= λ reason. query (reviewable actor id) >>= λ row.
    transact (decide id actor.user_id env.now_utc (DecisionKind.reject reason))
    >>= record_rejection actor reason row
