-- ===== src/Api/Pages/Protect.antt =====
-- `protect_page_in_namespace` of crates/api/src/pages/protect.rs. A plan without a write is the
-- request for the level that the page has.
use thewiki.Prelude.{Option, some, none, Bool, not, [], ◌∷◌}
use thewiki.Prelude.Result.{Result, ok, err, and_then}
use thewiki.Prelude.Tests.{if◌then◌else◌}
use thewiki.Prelude.Text.{Text, codes, text_eq}
use thewiki.Core.Page.{Page, Namespace}
use thewiki.Core.Permissions.{contains, protect}
use thewiki.Core.Protection.{ProtectionLevel, as_str}
use thewiki.Storage.Schema.{Db, string, AuditEntry}
use thewiki.Storage.PageAudit.{commit_page_audit, update}
use thewiki.Api.Editor.{Editor}
use thewiki.Api.Exec.{ApiError, page_protected, Exec, resume, ◌>>=◌, pure, write}
use thewiki.Api.Pages.{Env, page_label, page_event, resolve_namespace, resolve_page}

-- Levels are told apart by their names.
abbrev pub level_eq : ProtectionLevel → ProtectionLevel → Bool
level_eq a b = text_eq (as_str a) (as_str b)

unfoldable pub protect_plan :
    Env → Editor → ProtectionLevel → Namespace → Page → Page × Option AuditEntry
protect_plan env actor level namespace page =
    if level_eq page.protection_level level then (page, none) else (
      record page { protection_level = level; updated_at = env.now_utc },
      some (
          page_event actor.user_id actor.username (codes "page.protect") page.id
            (page_label namespace page)
            ((codes "namespace", string namespace.slug)
              ∷ (codes "slug", string page.slug)
              ∷ (codes "from", string (as_str page.protection_level))
              ∷ (codes "to", string (as_str level))
              ∷ [])),
    )

unfoldable pub plan_protect :
    Env → Editor → Text → Text → ProtectionLevel → Db → Result ApiError (Page × Option AuditEntry)
plan_protect env actor namespace_slug slug level db =
    if not (contains actor.permissions protect)
    then err (page_protected level (codes "PROTECT"))
    else and_then (resolve_namespace namespace_slug db) (λ namespace.
      and_then (resolve_page namespace slug db)
        (λ page. ok (protect_plan env actor level namespace page)))

unfoldable pub carry_out_protect : Page × Option AuditEntry → Exec Page
carry_out_protect (page, none) = pure page
carry_out_protect (page, some audit) =
    write (commit_page_audit (update page) audit) >>= λ done. pure page

unfoldable pub protect_page_in_namespace : Env → Editor → Text → Text → ProtectionLevel → Exec Page
protect_page_in_namespace env actor namespace_slug slug level w =
    resume (plan_protect env actor namespace_slug slug level w.db) w carry_out_protect
