-- ===== src/Api/Pages/Delete.antt =====
-- `delete_page_in_namespace` of crates/api/src/pages/routes.rs.
use thewiki.Prelude.{ℕ, [], ◌∷◌}
use thewiki.Prelude.Result.{Result, ok, and_then}
use thewiki.Prelude.Text.{Text, codes}
use thewiki.Storage.Schema.{Db, string, AuditEntry}
use thewiki.Storage.PageAudit.{commit_page_audit, delete}
use thewiki.Api.Editor.{Editor, check_protection}
use thewiki.Api.Exec.{ApiError, SearchOp, Exec, resume, ◌>>=◌, write, index}
use thewiki.Api.Pages.{page_label, page_event, resolve_namespace, resolve_page}

unfoldable pub plan_delete : Editor → Text → Text → Db → Result ApiError (ℕ × AuditEntry)
plan_delete editor namespace_slug slug db =
    and_then (resolve_namespace namespace_slug db) (λ namespace.
      and_then (resolve_page namespace slug db) (λ page.
        and_then (check_protection page.protection_level editor.is_anonymous editor.permissions)
          (λ allowed. ok (
            page.id,
            page_event editor.user_id editor.username (codes "page.delete") page.id
                (page_label namespace page)
                ((codes "namespace", string namespace.slug)
                  ∷ (codes "slug", string page.slug)
                  ∷ []),
          ))))

unfoldable pub carry_out_delete : ℕ × AuditEntry → Exec (Unit {0})
carry_out_delete (page_id, audit) =
    write (commit_page_audit (delete page_id) audit) >>= λ gone. index (SearchOp.delete page_id)

unfoldable pub delete_page_in_namespace : Editor → Text → Text → Exec (Unit {0})
delete_page_in_namespace editor namespace_slug slug w =
    resume (plan_delete editor namespace_slug slug w.db) w carry_out_delete
