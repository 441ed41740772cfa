-- ===== src/Api/Workflow.antt =====
-- The page workflow as a whole: any sequence of the requests of crates/api/src/pages and
-- crates/api/src/pending_revisions, of any users, with any outcome.
use thewiki.Prelude.Text.{Text}
use thewiki.Core.Protection.{ProtectionLevel}
use thewiki.Storage.PageAudit.Invariant.{WellFormed}
use thewiki.Prelude.{ℕ, ◌≡◌, true, false, Bool, List}
use thewiki.Core.Revision.{Revision}
use thewiki.Api.History.{Kept-WellFormed, Kept-Continues, Continues, Extends}
use thewiki.Api.Editor.{Editor}
use thewiki.Api.Exec.{World}
use thewiki.Api.Pages.{Env}
use thewiki.Api.Pages.Create.{CreatePageRequest, create_page_in_namespace}
use thewiki.Api.Pages.Update.{UpdatePageRequest, update_page_in_namespace}
use thewiki.Api.Pages.Delete.{delete_page_in_namespace}
use thewiki.Api.Pages.Protect.{protect_page_in_namespace}
use thewiki.Api.Pages.Revert.{RevertRequest, revert_page_in_namespace}
use thewiki.Api.PendingRevisions.{approve_pending, reject_pending}
use thewiki.Api.Pages.Update.Effects.{update_page-Keeps}
use thewiki.Api.Pages.Handlers.{
  create_page-Keeps, delete_page-Keeps, protect_page-Keeps, revert_page-Keeps,
}
use thewiki.Api.PendingRevisions.Tables.{approve_pending-Keeps, reject_pending-Keeps}

pub data Step : World → World → Type 0 where
  create :
      {w : World} (env : Env) (editor : Editor) (ns : Text) (req : CreatePageRequest)
      → Step w (create_page_in_namespace env editor ns req w).1
  update :
      {w : World} (env : Env) (editor : Editor) (ns slug : Text) (req : UpdatePageRequest)
      → Step w (update_page_in_namespace env editor ns slug req w).1
  delete :
      {w : World} (editor : Editor) (ns slug : Text)
      → Step w (delete_page_in_namespace editor ns slug w).1
  protect :
      {w : World} (env : Env) (actor : Editor) (ns slug : Text) (level : ProtectionLevel)
      → Step w (protect_page_in_namespace env actor ns slug level w).1
  revert :
      {w : World} (env : Env) (show_id : ℕ → Text) (author : Editor) (ns slug : Text)
      (req : RevertRequest)
      → Step w (revert_page_in_namespace env show_id author ns slug req w).1
  approve :
      {w : World} (env : Env) (anonymous : ℕ) (actor : Editor) (id : ℕ)
      → Step w (approve_pending env anonymous actor id w).1
  reject :
      {w : World} (env : Env) (actor : Editor) (id : ℕ) (reason : Text)
      → Step w (reject_pending env actor id reason w).1

pub data Reachable (start : World) : World → Type 0 where
  here : Reachable start start
  next : {w after : World} → Reachable start w → Step w after → Reachable start after

pub Step-WellFormed : (w after : World) → Step w after → WellFormed w.db → WellFormed after.db
Step-WellFormed w _ (create env editor ns req) wf =
    create_page-Keeps WellFormed Kept-WellFormed env editor ns req w wf
Step-WellFormed w _ (update env editor ns slug req) wf =
    update_page-Keeps WellFormed Kept-WellFormed env editor ns slug req w wf
Step-WellFormed w _ (delete editor ns slug) wf = delete_page-Keeps editor ns slug w wf
Step-WellFormed w _ (protect env actor ns slug level) wf =
    protect_page-Keeps WellFormed Kept-WellFormed env actor ns slug level w wf
Step-WellFormed w _ (revert env show_id author ns slug req) wf =
    revert_page-Keeps WellFormed Kept-WellFormed env show_id author ns slug req w wf
Step-WellFormed w _ (approve env anonymous actor id) wf =
    approve_pending-Keeps WellFormed Kept-WellFormed env anonymous actor id w wf
Step-WellFormed w _ (reject env actor id reason) wf =
    reject_pending-Keeps WellFormed Kept-WellFormed env actor id reason w wf

-- Whatever requests come, from tables that are well-formed: page and revision ids stay distinct,
-- a page's head is one of its revisions, and a revision's parent is a revision of the same page.
pub Reachable-WellFormed :
    (start w : World) → WellFormed start.db → Reachable start w → WellFormed w.db
Reachable-WellFormed start _ wf here = wf
Reachable-WellFormed start _ wf (next {w} {after} r s) =
    Step-WellFormed w after s (Reachable-WellFormed start w wf r)

abbrev pub is_delete : {w after : World} → Step w after → Bool
is_delete (create env editor ns req) = false
is_delete (update env editor ns slug req) = false
is_delete (delete editor ns slug) = true
is_delete (protect env actor ns slug level) = false
is_delete (revert env show_id author ns slug req) = false
is_delete (approve env anonymous actor id) = false
is_delete (reject env actor id reason) = false

Step-Continues :
    (old : List Revision) (w after : World) (s : Step w after)
    → is_delete s ≡ false
    → Continues old w.db
    → Continues old after.db
Step-Continues old w _ (create env editor ns req) e c =
    create_page-Keeps (Continues old) (Kept-Continues old) env editor ns req w c
Step-Continues old w _ (update env editor ns slug req) e c =
    update_page-Keeps (Continues old) (Kept-Continues old) env editor ns slug req w c
Step-Continues old w _ (delete editor ns slug) e c = cc
Step-Continues old w _ (protect env actor ns slug level) e c =
    protect_page-Keeps (Continues old) (Kept-Continues old) env actor ns slug level w c
Step-Continues old w _ (revert env show_id author ns slug req) e c =
    revert_page-Keeps (Continues old) (Kept-Continues old) env show_id author ns slug req w c
Step-Continues old w _ (approve env anonymous actor id) e c =
    approve_pending-Keeps (Continues old) (Kept-Continues old) env anonymous actor id w c
Step-Continues old w _ (reject env actor id reason) e c =
    reject_pending-Keeps (Continues old) (Kept-Continues old) env actor id reason w c

-- From well-formed tables, every request but a deletion leaves each revision that was there as it was.
pub Step-Extends :
    (w after : World) (s : Step w after)
    → is_delete s ≡ false
    → WellFormed w.db
    → Extends w.db.revisions after.db.revisions
Step-Extends w after s e wf =
    (Step-Continues w.db.revisions w after s e
      (record { sound = wf; extends = λ id r found. found })).extends
