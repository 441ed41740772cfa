-- ===== src/Api/Pages/Revert.antt =====
-- `revert_page_in_namespace` of crates/api/src/pages/revert.rs.
use thewiki.Prelude.{ℕ, Option, some, none, false, not, [], ◌∷◌, ◌++◌}
use thewiki.Prelude.Result.{Result, ok, err, and_then}
use thewiki.Prelude.Tests.{◌==◌, if◌then◌else◌}
use thewiki.Prelude.Text.{Text, codes, text_eq, trim}
use thewiki.Core.Page.{Page, Namespace}
use thewiki.Core.Revision.{Revision, new}
use thewiki.Storage.Schema.{Db, string, uuid, AuditEntry}
use thewiki.Storage.Tables.{revision_by_id}
use thewiki.Storage.PageAudit.{commit_page_audit, commit_revision}
use thewiki.Api.Editor.{Editor, check_protection}
use thewiki.Api.Exec.{ApiError, not_found, upsert, Exec, resume, ◌>>=◌, pure, write, index}
use thewiki.Api.Pages.{
  Env, page_label, page_event, resolve_namespace, resolve_page, build_search_doc,
}

pub record RevertRequest : Type 0 where
  pub from_revision : ℕ
  pub message : Option Text

pub record RevertPlan : Type 0 where
  pub namespace : Namespace
  pub page : Page
  pub revision : Revision
  pub audit : AuditEntry

-- A blank message counts as none; `show_id` is the id's display form.
abbrev revert_summary : (ℕ → Text) → RevertRequest → Text
revert_summary show_id req = elim req.message [
  | none ↦ codes "Reverted to " ++ show_id req.from_revision
  | some m ↦ if text_eq (trim m) [] then codes "Reverted to " ++ show_id req.from_revision else m
]

unfoldable pub revert_plan :
    Env → (ℕ → Text) → Editor → RevertRequest → Namespace → Page → Revision → RevertPlan
revert_plan env show_id author req space row historical = record {
  namespace = space;
  page = record row { current_revision_id = some env.fresh_revision; updated_at = env.now_utc };
  revision =
      new env.fresh_revision env.now_utc row.id row.current_revision_id author.user_id
        historical.body (some (revert_summary show_id req));
  audit =
      page_event author.user_id author.username (codes "page.revert") row.id (page_label space row)
        ((codes "namespace", string space.slug)
          ∷ (codes "slug", string row.slug)
          ∷ (codes "from_revision_id", uuid historical.id)
          ∷ (codes "new_revision_id", uuid env.fresh_revision)
          ∷ []);
}

-- A revision that is not there, or is another page's, is not found.
unfoldable pub same_page : Page → Option Revision → Result ApiError Revision
same_page page none = err not_found
same_page page (some historical) =
    if not (historical.page_id == page.id) then err not_found else ok historical

unfoldable pub plan_revert :
    Env → (ℕ → Text) → Editor → Text → Text → RevertRequest → Db → Result ApiError RevertPlan
plan_revert env show_id author namespace_slug slug req db =
    and_then (resolve_namespace namespace_slug db) (λ namespace.
      and_then (resolve_page namespace slug db) (λ page.
        and_then (check_protection page.protection_level false author.permissions) (λ allowed.
          and_then (same_page page (revision_by_id db.revisions req.from_revision))
            (λ historical. ok (revert_plan env show_id author req namespace page historical)))))

-- The index is sent the page without tags.
unfoldable pub carry_out_revert : RevertPlan → Exec Page
carry_out_revert plan =
    write (commit_page_audit (commit_revision plan.page plan.revision) plan.audit) >>= λ committed.
    index (upsert (build_search_doc plan.page plan.namespace plan.revision.body [])) >>= λ sent.
    pure plan.page

unfoldable pub revert_page_in_namespace :
    Env → (ℕ → Text) → Editor → Text → Text → RevertRequest → Exec Page
revert_page_in_namespace env show_id author namespace_slug slug req w =
    resume (plan_revert env show_id author namespace_slug slug req w.db) w carry_out_revert
