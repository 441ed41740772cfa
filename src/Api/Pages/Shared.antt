-- ===== src/Api/Pages/Shared.antt =====
-- The steps that the page handlers share keep the tables well-formed.
use thewiki.Prelude.{◌≡◌, sym, ap, ◌∙◌, subst, ℕ, ◌&&◌, Option, some, none, List}
use thewiki.Prelude.Result.{ok, some-ok, ok-injective}
use thewiki.Prelude.Tests.{◌==◌}
use thewiki.Prelude.Text.{Text, text_eq}
use thewiki.Core.Page.{Page, Namespace}
use thewiki.Core.Revision.{Revision}
use thewiki.Storage.Schema.{Db, AuditEntry}
use thewiki.Storage.Relations.{assign_tags}
use thewiki.Storage.PageAudit.{PageAuditMutation, commit_page_audit}
use thewiki.Storage.Tables.{page_by_slug}
use thewiki.Storage.Tables.Lookup.{by_key, by_key-found}
use thewiki.Storage.Tables.Owned.{page_key, Owned}
use thewiki.Storage.PageAudit.Invariant.{WellFormed}
use thewiki.Storage.PageAudit.Commit.{HasParent, IsLinear, commit_page_audit-WellFormed}
use thewiki.Storage.Untouched.{
  Untouched, assign_tags-Untouched, replace_links-Untouched, replace_categories-Untouched,
  create-Untouched,
}
use thewiki.Api.Editor.{Editor}
use thewiki.Api.Exec.{World, write, not_found}
use thewiki.Api.Exec.Keeps.{Keeps, bind-Keeps, pure-Keeps, query-Keeps, write-Keeps, write-runs}
use thewiki.Api.Pages.{Env, resolve_page, update_page_links, assign_categories, persist_pending}

pub resolve_page-ok :
    (namespace : Namespace) (slug : Text) (db : Db) (page : Page)
    → WellFormed db
    → resolve_page namespace slug db ≡ ok page
    → by_key page_key db.pages page.id ≡ some page
unfolding resolve_page page_by_slug
resolve_page-ok namespace slug db page w h =
    let (row, found, same) =
      some-ok (page_by_slug db.pages namespace.id slug) not_found (λ p. ok p) page h in
    by_key-found page_key (λ p. p.namespace_id == namespace.id && text_eq p.slug slug) db.pages page
      w.pages_distinct (found ∙ ap (λ p. some p) (ok-injective _ _ same))

-- A revision on top of a page's head has a parent of the page.
pub HasParent-head :
    (db : Db) (page : Page) (rev : Revision)
    → WellFormed db
    → by_key page_key db.pages page.id ≡ some page
    → rev.page_id ≡ page.id
    → rev.parent_id ≡ page.current_revision_id
    → HasParent rev db
HasParent-head db page rev w there own up q e =
    subst (Owned db.revisions q) (sym own) (w.heads page.id page q there (sym up ∙ e))

pub commit-WellFormed :
    (m : PageAuditMutation) (audit : AuditEntry) (w : World)
    → IsLinear m w.db
    → WellFormed w.db
    → WellFormed (write (commit_page_audit m audit) w).1.db
commit-WellFormed m audit w linear wf =
    write-runs WellFormed _ w wf
      (λ out e. commit_page_audit-WellFormed m audit w.db out linear e wf)

module _ (P : Db → Type 0) (respects : (db out : Db) → Untouched db out → P db → P out) where
  pub update_page_links-Keeps :
      (env : Env) (page_id : ℕ) (ns body : Text) → Keeps P (update_page_links env page_id ns body)
  unfolding update_page_links
  update_page_links-Keeps env page_id ns body =
      write-Keeps P _ (λ db out e w. respects db out (replace_links-Untouched _ _ db out e) w)

  pub assign_categories-Keeps :
      (page_id : ℕ) (ids : Option (List ℕ)) → Keeps P (assign_categories page_id ids)
  unfolding assign_categories
  assign_categories-Keeps page_id none = pure-Keeps P tt
  assign_categories-Keeps page_id (some ids) =
      write-Keeps P _ (λ db out e w. respects db out (replace_categories-Untouched _ _ db out e) w)

  pub persist_pending-Keeps :
      (env : Env) (rev : Revision) (editor : Editor) (comment : Option Text)
      → Keeps P (persist_pending env rev editor comment)
  unfolding persist_pending
  persist_pending-Keeps env rev editor comment =
      bind-Keeps P _ _
        (write-Keeps P _ (λ db out e w. respects db out (create-Untouched _ _ _ db out e) w))
        (λ made. query-Keeps P _)

  pub assign_tags-Keeps :
      (page_id : ℕ) (tags : List Text) → Keeps P (write (assign_tags page_id tags))
  assign_tags-Keeps page_id tags =
      write-Keeps P _ (λ db out e w. respects db out (assign_tags-Untouched _ _ db out e) w)
