-- ===== src/Api/Pages/Handlers.antt =====
-- The other page handlers keep the tables well-formed.
use thewiki.Prelude.{◌≡◌, refl, subst, ℕ, Bool, true, false, not, Option, some, none, List}
use thewiki.Prelude.Result.{ok, and_then-ok, unless-ok, ok-injective}
use thewiki.Prelude.Tests.{if-either, if◌then◌else◌}
use thewiki.Prelude.Text.{Text}
use thewiki.Core.Page.{Page, Namespace}
use thewiki.Core.Permissions.{contains, protect}
use thewiki.Core.Protection.{ProtectionLevel}
use thewiki.Storage.Schema.{Db, AuditEntry}
use thewiki.Storage.Tables.{revision_by_id}
use thewiki.Storage.PageAudit.{create_page, commit_revision, update, delete}
use thewiki.Storage.PageAudit.Invariant.{WellFormed}
use thewiki.Storage.PageAudit.Commit.{HasParent, IsLinear}
use thewiki.Api.Editor.{Editor, check_protection}
use thewiki.Api.Kept.{Kept}
use thewiki.Api.Exec.{World}
use thewiki.Api.Exec.Keeps.{Keeps, resume-Keeps, then-Keeps, bind-Keeps, pure-Keeps, index-Keeps}
use thewiki.Api.Pages.{
  Env, EditPlan, parse_tag_list, ensure_body_passes_url_blocklist, resolve_namespace, resolve_page,
}
use thewiki.Api.Pages.Shared.{
  resolve_page-ok, HasParent-head, update_page_links-Keeps, assign_categories-Keeps,
  persist_pending-Keeps, commit-WellFormed, assign_tags-Keeps,
}
use thewiki.Api.Pages.Create.{
  CreatePageRequest, required, create_plan, plan_create, assigned_tags, publish_new, enqueue_new,
  carry_out_create, create_page_in_namespace,
}
use thewiki.Api.Pages.Delete.{plan_delete, carry_out_delete, delete_page_in_namespace}
use thewiki.Api.Pages.Protect.{
  level_eq, protect_plan, plan_protect, carry_out_protect, protect_page_in_namespace,
}
use thewiki.Api.Pages.Revert.{
  RevertRequest, RevertPlan, revert_plan, plan_revert, same_page, carry_out_revert,
  revert_page_in_namespace,
}

-- A new page's first revision has no parent.
plan_create-HasParent :
    (env : Env) (editor : Editor) (ns : Text) (req : CreatePageRequest) (db : Db) (plan : EditPlan)
    → plan_create env editor ns req db ≡ ok plan
    → HasParent plan.revision db
unfolding plan_create create_plan
plan_create-HasParent env editor ns req db plan h =
    let (slug, h0, h1) = and_then-ok (required _ req.slug) _ plan h in
    let (title, h2, h3) = and_then-ok (required _ req.title) _ plan h1 in
    let (tags, h4, h5) = and_then-ok (parse_tag_list req.tags) _ plan h3 in
    let (clean, h6, h7) =
      and_then-ok (ensure_body_passes_url_blocklist env req.content) _ plan h5 in
    let (namespace, h8, h9) = and_then-ok (resolve_namespace ns db) _ plan h7 in
    subst (λ p. HasParent p.revision db) (ok-injective _ _ h9) (λ q e. cc)

pub delete_page-Keeps :
    (editor : Editor) (ns slug : Text) → Keeps WellFormed (delete_page_in_namespace editor ns slug)
unfolding delete_page_in_namespace carry_out_delete
delete_page-Keeps editor ns slug w wf =
    resume-Keeps WellFormed (plan_delete editor ns slug w.db) w _ wf (λ plan e.
      then-Keeps WellFormed _ _ w (commit-WellFormed (delete plan.0) plan.1 w tt wf)
        (λ gone. index-Keeps WellFormed _))

protect_plan-IsLinear :
    (env : Env) (actor : Editor) (level : ProtectionLevel) (namespace : Namespace) (slug : Text)
    (page : Page) (db : Db)
    → WellFormed db
    → resolve_page namespace slug db ≡ ok page
    → IsLinear (update (protect_plan env actor level namespace page).0) db
unfolding protect_plan
protect_plan-IsLinear env actor level namespace slug page db wf there =
    let head = wf.heads page.id page in
    let found = resolve_page-ok namespace slug db page wf there in
    if-either (λ (p : Page × Option AuditEntry). IsLinear (update p.0) db)
      (level_eq page.protection_level level) _ _ (λ r e. head r found e) (λ r e. head r found e)

plan_protect-IsLinear :
    (env : Env) (actor : Editor) (ns slug : Text) (level : ProtectionLevel) (db : Db)
    (plan : Page × Option AuditEntry)
    → WellFormed db
    → plan_protect env actor ns slug level db ≡ ok plan
    → IsLinear (update plan.0) db
unfolding plan_protect
plan_protect-IsLinear env actor ns slug level db plan wf h =
    let (may, h0) = unless-ok (not (contains actor.permissions protect)) _ _ plan h in
    let (namespace, h1, h2) = and_then-ok (resolve_namespace ns db) _ plan h0 in
    let (page, h3, h4) = and_then-ok (resolve_page namespace slug db) _ plan h2 in
    subst (λ p. IsLinear (update p.0) db) (ok-injective _ _ h4)
      (protect_plan-IsLinear env actor level namespace slug page db wf h3)

plan_revert-HasParent :
    (env : Env) (show_id : ℕ → Text) (author : Editor) (ns slug : Text) (req : RevertRequest)
    (db : Db) (plan : RevertPlan)
    → WellFormed db
    → plan_revert env show_id author ns slug req db ≡ ok plan
    → HasParent plan.revision db
unfolding plan_revert revert_plan
plan_revert-HasParent env show_id author ns slug req db plan wf h =
    let (namespace, h0, h1) = and_then-ok (resolve_namespace ns db) _ plan h in
    let (page, h2, h3) = and_then-ok (resolve_page namespace slug db) _ plan h1 in
    let (allowed, h4, h5) =
      and_then-ok (check_protection page.protection_level false author.permissions) _ plan h3 in
    let (historical, h6, h7) =
      and_then-ok (same_page page (revision_by_id db.revisions req.from_revision)) _ plan h5 in
    subst (λ p. HasParent p.revision db) (ok-injective _ _ h7)
      (HasParent-head db page
        (revert_plan env show_id author req namespace page historical).revision wf
        (resolve_page-ok namespace slug db page wf h2) refl refl)

module _ (P : Db → Type 0) (kept : Kept P) where
  assigned_tags-Keeps :
      (page_id : ℕ) (tags : Option (List Text)) → Keeps P (assigned_tags page_id tags)
  unfolding assigned_tags
  assigned_tags-Keeps page_id none = pure-Keeps P _
  assigned_tags-Keeps page_id (some tags) =
      bind-Keeps P _ _ (assign_tags-Keeps P kept.respects page_id tags) (λ done. pure-Keeps P tags)

  created :
      (env : Env) (editor : Editor) (plan : EditPlan) (b : Bool) (w : World)
      → HasParent plan.revision w.db
      → P w.db
      → P ((if b then publish_new env plan else enqueue_new env editor plan) w).1.db
  unfolding publish_new enqueue_new
  created env editor plan true w own wf =
      then-Keeps P _ _ w
        (kept.commits (create_page plan.page (some plan.revision)) plan.audit w refl own wf)
        (λ made. bind-Keeps P _ _ (update_page_links-Keeps P kept.respects _ _ _ _) (λ linked.
          bind-Keeps P _ _ (assign_categories-Keeps P kept.respects _ _) (λ filed.
            bind-Keeps P _ _ (assigned_tags-Keeps _ _)
              (λ tags. bind-Keeps P _ _ (index-Keeps P _) (λ sent. pure-Keeps P none)))))
  created env editor plan false w own wf =
      then-Keeps P _ _ w (kept.commits (create_page plan.page none) plan.audit w refl tt wf)
        (λ made.
          bind-Keeps P _ _ (persist_pending-Keeps P kept.respects _ _ _ _)
            (λ place. pure-Keeps P (some place)))

  pub create_page-Keeps :
      (env : Env) (editor : Editor) (ns : Text) (req : CreatePageRequest)
      → Keeps P (create_page_in_namespace env editor ns req)
  unfolding create_page_in_namespace carry_out_create
  create_page-Keeps env editor ns req w wf =
      resume-Keeps P (plan_create env editor ns req w.db) w _ wf (λ plan e.
        then-Keeps P _ _ w
          (created env editor plan plan.live w (plan_create-HasParent env editor ns req w.db plan e)
            wf)
          (λ place. pure-Keeps P _))

  protected_page :
      (plan : Page × Option AuditEntry) (w : World)
      → IsLinear (update plan.0) w.db
      → P w.db
      → P (carry_out_protect plan w).1.db
  unfolding carry_out_protect
  protected_page (page, none) w l wf = pure-Keeps P page w wf
  protected_page (page, some audit) w l wf =
      then-Keeps P _ _ w (kept.commits (update page) audit w refl l wf) (λ done. pure-Keeps P page)

  pub protect_page-Keeps :
      (env : Env) (actor : Editor) (ns slug : Text) (level : ProtectionLevel)
      → Keeps P (protect_page_in_namespace env actor ns slug level)
  unfolding protect_page_in_namespace
  protect_page-Keeps env actor ns slug level w wf =
      resume-Keeps P (plan_protect env actor ns slug level w.db) w _ wf (λ plan e.
        protected_page plan w
          (plan_protect-IsLinear env actor ns slug level w.db plan (kept.well_formed w.db wf) e) wf)

  pub revert_page-Keeps :
      (env : Env) (show_id : ℕ → Text) (author : Editor) (ns slug : Text) (req : RevertRequest)
      → Keeps P (revert_page_in_namespace env show_id author ns slug req)
  unfolding revert_page_in_namespace carry_out_revert
  revert_page-Keeps env show_id author ns slug req w wf =
      resume-Keeps P (plan_revert env show_id author ns slug req w.db) w _ wf (λ plan e.
        then-Keeps P _ _ w
          (kept.commits (commit_revision plan.page plan.revision) plan.audit w refl
            (plan_revert-HasParent env show_id author ns slug req w.db plan
              (kept.well_formed w.db wf) e)
            wf)
          (λ committed. bind-Keeps P _ _ (index-Keeps P _) (λ sent. pure-Keeps P _)))
