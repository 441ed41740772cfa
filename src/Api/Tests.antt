-- ===== src/Api/Tests.antt =====
-- The workflow's properties at concrete requests.
use thewiki.Prelude.{◌≡◌, refl, ℕ, [], ◌∷◌, some, none, true, false, inr}
use thewiki.Prelude.Result.{Result, ok, err}
use thewiki.Prelude.Text.{
  Text, codes, text_eq, trim, trim_start, trim_end, drop_while, is_whitespace,
}
use thewiki.Core.Permissions.{bit_and, contains, intersects}
use thewiki.Storage.Schema.{Db, StorageError}
use thewiki.Storage.Tables.{
  page_by_id, page_by_slug, revision_by_id, update_page, insert_revision, insert_audit, user_exists,
}
use thewiki.Storage.Tables.Lookup.{by_key}
use thewiki.Storage.Tables.Owned.{page_key}
use thewiki.Storage.PageAudit.Published.{Published}
use thewiki.Core.Page.{Page}
use thewiki.Core.Revision.{Revision}
use thewiki.Core.PendingRevision.{PendingRevision, is_pending}
use thewiki.Storage.PageAudit.{
  commit_revision, validate_mutation, apply_mutation, commit_page_audit,
}
use thewiki.Storage.PageAudit.Invariant.{WellFormed}
use thewiki.Storage.Pending.{pending_by_id, decide, decided, approve}
use thewiki.Storage.Relations.{
  namespace_by_slug, insert_links, replace_links, assign_tags, replace_categories, tags_for_page,
  notify, namespace_by_id, create_user,
}
use thewiki.Storage.Untouched.{Untouched}
use thewiki.Storage.Tests.{
  queued_edit, empty_db, empty_db-WellFormed, one_page, one_queued, start_page, main_space,
}
use thewiki.Api.ApprovalScope.{ApprovalScope, new_users, all}
use thewiki.Api.Editor.{
  Editor, needs_approval, effective_scope, new_user_window, should_queue, check_protection,
}
use thewiki.Api.Exec.{World, ◌>>=◌, pure, write, query, index, transact, attempt}
use thewiki.Api.History.{Extends}
use thewiki.Api.Pages.{
  Env, EditPlan, parse_tags, parse_tag_list, dedup_ids, parse_category_list,
  ensure_body_passes_url_blocklist, page_event, resolve_namespace, resolve_page, link_rows,
  update_page_links, assign_categories,
}
use thewiki.Api.Pages.Create.{CreatePageRequest, create_page_in_namespace}
use thewiki.Api.Pages.Update.{
  UpdatePageRequest, check_title, update_plan, plan_update, update_page_in_namespace,
  indexable_tags, publish_rest, publish, enqueue, carry_out_update,
}
use thewiki.Api.Pages.Update.Queued.{update_queued-Untouched}
use thewiki.Api.PendingRevisions.{
  approve_pending, reject_pending, require_review, open_to, reviewable, page_and_namespace,
  ensure_anonymous_user, promoted_author, notify_author, promote_rest, promote,
}
use thewiki.Api.PendingRevisions.Approved.{approve_pending-Published}
use thewiki.Api.PendingRevisions.Lifecycle.{Refused, review-Refused}
use thewiki.Api.Workflow.{
  here, next, create, update, Reachable-WellFormed, Step-WellFormed, Step-Extends,
}

planning : Unit {0}
unfolding text_eq trim trim_start trim_end drop_while is_whitespace bit_and contains intersects
    page_by_id page_by_slug revision_by_id update_page insert_revision insert_audit user_exists
    validate_mutation apply_mutation commit_page_audit pending_by_id namespace_by_slug
    needs_approval effective_scope new_user_window should_queue check_protection parse_tags
    parse_tag_list dedup_ids parse_category_list ensure_body_passes_url_blocklist page_event
    resolve_namespace resolve_page check_title update_plan plan_update
planning = tt

abbrev alice : Editor
alice = record {
  user_id = 7;
  is_anonymous = false;
  user_created_at = some 50;
  username = codes "alice";
  permissions = 4095;
}

abbrev env_with : ApprovalScope → ℕ → Env
env_with scope k = record {
  now_utc = 1000;
  timestamp = codes "2026-01-01T00:00:00Z";
  fresh_page = k;
  fresh_revision = k;
  fresh_pending = k;
  approval = record {
    approval_required_for = ApprovalScope.none;
    require_approval_for = scope;
    new_user_threshold_days = 7;
  };
  extract_links = λ body. codes "Other" ∷ [];
  blocklist_match = λ body. none;
}

abbrev new_page : CreatePageRequest
new_page = record {
  slug = codes "a";
  title = codes "A";
  content = codes "text";
  categories = none;
  tags = some (codes "Rust" ∷ []);
}

abbrev edit_with : Text → UpdatePageRequest
edit_with text = record {
  title = none;
  content = text;
  edit_summary = none;
  categories = none;
  tags = none;
}

abbrev fresh_wiki : World
fresh_wiki = record { db = empty_db; search = [] }

abbrev created : World
created =
    (create_page_in_namespace (env_with ApprovalScope.none 10) alice (codes "Main") new_page
      fresh_wiki).1

abbrev edited : World
edited =
    (update_page_in_namespace (env_with ApprovalScope.none 11) alice (codes "Main") (codes "a")
      (edit_with (codes "more")) created).1

created-WellFormed : WellFormed created.db
created-WellFormed =
    Step-WellFormed fresh_wiki created
      (create (env_with ApprovalScope.none 10) alice (codes "Main") new_page) empty_db-WellFormed

Reachable-WellFormed_example : WellFormed edited.db
Reachable-WellFormed_example = Reachable-WellFormed fresh_wiki edited empty_db-WellFormed (
    next (next here (create (env_with ApprovalScope.none 10) alice (codes "Main") new_page)) (
      update (env_with ApprovalScope.none 11) alice (codes "Main") (codes "a")
        (edit_with (codes "more"))))

Step-Extends_example : Extends created.db.revisions edited.db.revisions
Step-Extends_example =
    Step-Extends created edited
      (update (env_with ApprovalScope.none 11) alice (codes "Main") (codes "a")
        (edit_with (codes "more")))
      refl created-WellFormed

abbrev wiki : Db → World
wiki tables = record { db = tables; search = [] }

everyone_waits : should_queue (env_with all 11).approval alice 1000 ≡ true
unfolding planning
everyone_waits = refl

update_queued-Untouched_example :
    Untouched one_page
      (update_page_in_namespace
        (env_with all 11)
        alice
        (codes "Main")
        (codes "start")
        (edit_with (codes "more"))
        (wiki one_page)).1.db
update_queued-Untouched_example =
    update_queued-Untouched (env_with all 11) alice (codes "Main") (codes "start")
      (edit_with (codes "more")) (wiki one_page) everyone_waits

own_row :
    (row : _) × (pending_by_id one_queued.pending_revisions 30 ≡ some row)
    × (row.author_id ≡ some alice.user_id)
unfolding planning
own_row = (_, refl, refl)

review-Refused_example :
    Refused (approve_pending (env_with all 40) 9 alice 30) (wiki one_queued)
    × Refused (reject_pending (env_with all 40) alice 30 (codes "no")) (wiki one_queued)
review-Refused_example =
    review-Refused (env_with all 40) 9 alice 30 (codes "no") own_row.0 (wiki one_queued) own_row.1
      (inr own_row.2)

abbrev plan_of : ℕ → Text → EditPlan
plan_of k text =
    update_plan (env_with ApprovalScope.none k) alice (edit_with text) none main_space start_page

abbrev written : Result StorageError Db → Db
written (ok db) = db
written (err e) = empty_db

abbrev after_a : Db
after_a =
    let plan = plan_of 41 (codes "one") in
    written (commit_page_audit (commit_revision plan.page plan.revision) plan.audit one_page)

abbrev after_b : Db
after_b =
    let plan = plan_of 42 (codes "two") in
    written (commit_page_audit (commit_revision plan.page plan.revision) plan.audit after_a)

alice_is_new : needs_approval new_users alice 1000 86400 ≡ true
unfolding planning
alice_is_new = refl

running : Unit {0}
unfolding planning ◌>>=◌ pure write query index transact attempt insert_links replace_links
    assign_tags replace_categories tags_for_page notify namespace_by_id create_user link_rows
    update_page_links assign_categories indexable_tags publish_rest publish enqueue carry_out_update
    update_page_in_namespace decide require_review open_to reviewable page_and_namespace
    ensure_anonymous_user promoted_author notify_author promote_rest promote approve_pending
running = tt

abbrev bob : Editor
bob = record alice { user_id = 8; username = codes "bob" }

approve_ok :
    (approve_pending (env_with ApprovalScope.none 41) 9 bob 30 (wiki one_queued)).0
    ≡ ok (decided approve 8 1000 (queued_edit 30))
unfolding running
approve_ok = refl

approve_pending-Published_example :
    (row : PendingRevision) × (pending_by_id one_queued.pending_revisions 30 ≡ some row)
    × (is_pending row.status ≡ true)
    × (page : Page) × (by_key page_key one_queued.pages page.id ≡ some page)
    × (page.id ≡ row.page_id)
    × (rev : Revision) × (rev.body ≡ row.body)
    × (rev.parent_id ≡ page.current_revision_id)
    × Published page.id rev
        (approve_pending (env_with ApprovalScope.none 41) 9 bob 30 (wiki one_queued)).1.db
approve_pending-Published_example =
    approve_pending-Published (env_with ApprovalScope.none 41) 9 bob 30 (wiki one_queued)
      (decided approve 8 1000 (queued_edit 30)) approve_ok
