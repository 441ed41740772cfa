-- ===== src/Api/Pages/Update/Queued.antt =====
-- An edit that waits for a reviewer changes no page and no revision.
use thewiki.Prelude.{◌≡◌, sym, ap, ◌∙◌, subst, Bool, true, false, not}
use thewiki.Prelude.Result.{ok}
use thewiki.Prelude.Tests.{if◌then◌else◌}
use thewiki.Prelude.Text.{Text}
use thewiki.Storage.Schema.{Db}
use thewiki.Storage.PageAudit.Commit.{audit_only-ok}
use thewiki.Storage.Untouched.{
  Untouched, Untouched-trans, Untouched-refl, insert_audit-Untouched, create-Untouched,
}
use thewiki.Api.Editor.{Editor, should_queue}
use thewiki.Api.Exec.{World}
use thewiki.Api.Exec.Keeps.{Keeps, resume-Keeps, bind-Keeps, pure-Keeps, query-Keeps, write-Keeps}
use thewiki.Api.Pages.{Env, EditPlan, persist_pending}
use thewiki.Api.Pages.Update.{
  UpdatePageRequest, plan_update, update_plan, publish, enqueue, carry_out_update,
  update_page_in_namespace,
}
use thewiki.Api.Pages.Update.Effects.{plan_update-ok}

enqueue-Untouched :
    (base : Db) (env : Env) (editor : Editor) (plan : EditPlan)
    → Keeps (Untouched base) (enqueue env editor plan)
unfolding enqueue persist_pending
enqueue-Untouched base env editor plan =
    bind-Keeps (Untouched base) _ _
      (write-Keeps (Untouched base) _ (λ db out e u. Untouched-trans base db out u (
        subst (Untouched db) (sym (audit_only-ok plan.audit db out e))
          (insert_audit-Untouched plan.audit db))))
      (λ logged.
        bind-Keeps (Untouched base) _ _
          (bind-Keeps (Untouched base) _ _
            (write-Keeps (Untouched base) _
              (λ db out e u. Untouched-trans base db out u (create-Untouched _ _ _ db out e)))
            (λ made. query-Keeps (Untouched base) _))
          (λ place. pure-Keeps (Untouched base) _))

pub plan_update-live :
    (env : Env) (editor : Editor) (ns slug : Text) (req : UpdatePageRequest) (db : Db)
    (plan : EditPlan)
    → plan_update env editor ns slug req db ≡ ok plan
    → plan.live ≡ not (should_queue env.approval editor env.now_utc)
unfolding update_plan
plan_update-live env editor ns slug req db plan h =
    let (tags, namespace, page, in_space, there, allowed, q) =
      plan_update-ok env editor ns slug req db plan h in
    ap (λ p. p.live) q

held_back :
    (base : Db) (env : Env) (editor : Editor) (plan : EditPlan) (b : Bool)
    → b ≡ false
    → Keeps (Untouched base) (if b then publish env plan else enqueue env editor plan)
held_back base env editor plan true e = cc
held_back base env editor plan false e = enqueue-Untouched base env editor plan

-- If the approval policy holds the edit back, the update, whatever comes of it, leaves every page and
-- every revision as it was.
pub update_queued-Untouched :
    (env : Env) (editor : Editor) (ns slug : Text) (req : UpdatePageRequest) (w : World)
    → should_queue env.approval editor env.now_utc ≡ true
    → Untouched w.db (update_page_in_namespace env editor ns slug req w).1.db
unfolding update_page_in_namespace carry_out_update
update_queued-Untouched env editor ns slug req w queue =
    resume-Keeps (Untouched w.db) (plan_update env editor ns slug req w.db) w _
      (Untouched-refl w.db)
      (λ plan e.
        bind-Keeps (Untouched w.db) _ _
          (held_back w.db env editor plan plan.live
            (plan_update-live env editor ns slug req w.db plan e ∙ ap not queue))
          (λ place. pure-Keeps (Untouched w.db) _) w (Untouched-refl w.db))
