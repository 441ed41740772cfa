-- ===== src/Api/Pages/Update/Effects.antt =====
-- What an update leaves in the tables.
use thewiki.Prelude.{◌≡◌, refl, sym, subst, ℕ, Bool, true, false, Option, some, none, List}
use thewiki.Prelude.Result.{ok, and_then-ok, ok-injective}
use thewiki.Prelude.Tests.{if◌then◌else◌}
use thewiki.Prelude.Text.{Text}
use thewiki.Core.Page.{Page, Namespace}
use thewiki.Storage.Schema.{Db}
use thewiki.Storage.PageAudit.{commit_revision, audit_only}
use thewiki.Storage.PageAudit.Invariant.{WellFormed}
use thewiki.Storage.PageAudit.Commit.{HasParent}
use thewiki.Api.Editor.{Editor, check_protection}
use thewiki.Api.Kept.{Kept}
use thewiki.Storage.Untouched.{Untouched}
use thewiki.Api.Exec.{World}
use thewiki.Api.Exec.Keeps.{
  Keeps, resume-Keeps, then-Keeps, bind-Keeps, pure-Keeps, query-Keeps, index-Keeps,
}
use thewiki.Api.Pages.{
  Env, EditPlan, parse_tag_list, ensure_body_passes_url_blocklist, resolve_namespace, resolve_page,
}
use thewiki.Api.Pages.Shared.{
  resolve_page-ok, HasParent-head, update_page_links-Keeps, assign_categories-Keeps,
  persist_pending-Keeps, assign_tags-Keeps,
}
use thewiki.Api.Pages.Update.{
  UpdatePageRequest, check_title, update_plan, plan_update, indexable_tags, publish_rest, publish,
  enqueue, carry_out_update, update_page_in_namespace,
}

-- A plan comes from a page that the request names, that its protection lets the editor change.
pub plan_update-ok :
    (env : Env) (editor : Editor) (ns slug : Text) (req : UpdatePageRequest) (db : Db)
    (plan : EditPlan)
    → plan_update env editor ns slug req db ≡ ok plan
    → (tags : Option (List Text)) × (namespace : Namespace) × (page : Page) × (resolve_namespace ns
          db
        ≡ ok namespace)
      × (resolve_page namespace slug db ≡ ok page)
      × (check_protection page.protection_level editor.is_anonymous editor.permissions ≡ ok tt)
      × (plan ≡ update_plan env editor req tags namespace page)
unfolding plan_update
plan_update-ok env editor ns slug req db plan h =
    let (title, h0, h1) = and_then-ok (check_title req.title) _ plan h in
    let (tags, h2, h3) = and_then-ok (parse_tag_list req.tags) _ plan h1 in
    let (clean, h4, h5) =
      and_then-ok (ensure_body_passes_url_blocklist env req.content) _ plan h3 in
    let (namespace, h6, h7) = and_then-ok (resolve_namespace ns db) _ plan h5 in
    let (page, h8, h9) = and_then-ok (resolve_page namespace slug db) _ plan h7 in
    let (allowed, h10, h11) =
      and_then-ok (check_protection page.protection_level editor.is_anonymous editor.permissions) _
        plan h9 in
    (tags, namespace, page, h6, h8, h10, sym (ok-injective _ _ h11))

plan_update-HasParent :
    (env : Env) (editor : Editor) (ns slug : Text) (req : UpdatePageRequest) (db : Db)
    (plan : EditPlan)
    → WellFormed db
    → plan_update env editor ns slug req db ≡ ok plan
    → HasParent plan.revision db
unfolding update_plan
plan_update-HasParent env editor ns slug req db plan wf h =
    let (tags, namespace, page, in_space, there, allowed, q) =
      plan_update-ok env editor ns slug req db plan h in
    subst (λ p. HasParent p.revision db) (sym q)
      (HasParent-head db page (update_plan env editor req tags namespace page).revision wf
        (resolve_page-ok namespace slug db page wf there) refl refl)

module _ (P : Db → Type 0) (respects : (db out : Db) → Untouched db out → P db → P out) where
  indexable_tags-Keeps :
      (page_id : ℕ) (tags : Option (List Text)) → Keeps P (indexable_tags page_id tags)
  unfolding indexable_tags
  indexable_tags-Keeps page_id none = query-Keeps P _
  indexable_tags-Keeps page_id (some tags) =
      bind-Keeps P _ _ (assign_tags-Keeps P respects page_id tags) (λ done. pure-Keeps P tags)

  pub publish_rest-Keeps : (env : Env) (plan : EditPlan) → Keeps P (publish_rest env plan)
  unfolding publish_rest
  publish_rest-Keeps env plan =
      bind-Keeps P _ _ (update_page_links-Keeps P respects _ _ _ _) (λ linked.
        bind-Keeps P _ _ (assign_categories-Keeps P respects _ _) (λ filed.
          bind-Keeps P _ _ (indexable_tags-Keeps _ _)
            (λ tags. bind-Keeps P _ _ (index-Keeps P _) (λ sent. pure-Keeps P none))))

module _ (P : Db → Type 0) (kept : Kept P) where
  publish-Keeps :
      (env : Env) (plan : EditPlan) (w : World)
      → HasParent plan.revision w.db
      → P w.db
      → P (publish env plan w).1.db
  unfolding publish
  publish-Keeps env plan w own wf =
      then-Keeps P _ _ w
        (kept.commits (commit_revision plan.page plan.revision) plan.audit w refl own wf)
        (λ committed. publish_rest-Keeps P kept.respects env plan)

  enqueue-Keeps :
      (env : Env) (editor : Editor) (plan : EditPlan) → Keeps P (enqueue env editor plan)
  unfolding enqueue
  enqueue-Keeps env editor plan w wf =
      then-Keeps P _ _ w (kept.commits audit_only plan.audit w refl tt wf) (λ logged.
        bind-Keeps P _ _ (persist_pending-Keeps P kept.respects _ _ _ _)
          (λ place. pure-Keeps P (some place)))

  carried :
      (env : Env) (editor : Editor) (plan : EditPlan) (b : Bool) (w : World)
      → HasParent plan.revision w.db
      → P w.db
      → P ((if b then publish env plan else enqueue env editor plan) w).1.db
  carried env editor plan true w own wf = publish-Keeps env plan w own wf
  carried env editor plan false w own wf = enqueue-Keeps env editor plan w wf

  pub update_page-Keeps :
      (env : Env) (editor : Editor) (ns slug : Text) (req : UpdatePageRequest)
      → Keeps P (update_page_in_namespace env editor ns slug req)
  unfolding update_page_in_namespace carry_out_update
  update_page-Keeps env editor ns slug req w wf =
      resume-Keeps P (plan_update env editor ns slug req w.db) w _ wf (λ plan e.
        then-Keeps P _ _ w
          (carried env editor plan plan.live w
            (plan_update-HasParent env editor ns slug req w.db plan (kept.well_formed w.db wf) e)
            wf)
          (λ place. pure-Keeps P _))
