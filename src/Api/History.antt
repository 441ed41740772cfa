-- ===== src/Api/History.antt =====
-- The two properties of the tables that requests keep: well-formedness, and the history so far.
use thewiki.Prelude.{◌≡◌, sym, ap, ◌∙◌, subst, ℕ, true, List, some, none}
use thewiki.Prelude.Result.{ok, and_then-ok, ok-injective}
use thewiki.Core.Revision.{Revision}
use thewiki.Storage.Schema.{Db, AuditEntry}
use thewiki.Storage.Tables.{insert_page, insert_revision, insert_audit}
use thewiki.Storage.Tables.Lookup.{by_key, by_key-fresh}
use thewiki.Storage.Tables.Owned.{revision_key}
use thewiki.Storage.PageAudit.{
  PageAuditMutation, create_page, commit_revision, update, delete, audit_only, validate_mutation,
  apply_mutation, commit_page_audit,
}
use thewiki.Storage.PageAudit.Invariant.{
  WellFormed, insert_page-ok, insert_revision-ok, update_page-ok,
}
use thewiki.Storage.PageAudit.Commit.{commit_page_audit-WellFormed}
use thewiki.Storage.Untouched.{Untouched-WellFormed}
use thewiki.Api.Exec.Keeps.{write-runs}
use thewiki.Api.Kept.{Kept, deletes_nothing}
use thewiki.Api.Pages.Shared.{commit-WellFormed}

pub Kept-WellFormed : Kept WellFormed
Kept-WellFormed = record {
  respects = Untouched-WellFormed;
  well_formed = λ db wf. wf;
  commits = λ m audit w keeps linear wf. commit-WellFormed m audit w linear wf;
}

-- Every revision of the first list is in the second, unchanged.
abbrev pub Extends : List Revision → List Revision → Type 0
Extends old rows =
    (id : ℕ) (r : Revision)
    → by_key revision_key old id ≡ some r
    → by_key revision_key rows id ≡ some r

Extends-insert :
    (old : List Revision) (rev : Revision) (db out : Db)
    → insert_revision rev db ≡ ok out
    → Extends old db.revisions
    → Extends old out.revisions
Extends-insert old rev db out h x id r found =
    let (absent, q) = insert_revision-ok rev db out h in
    ap (λ d. by_key revision_key d.revisions id) q
    ∙ by_key-fresh revision_key rev db.revisions id r absent (x id r found)

Extends-apply :
    (old : List Revision) (m : PageAuditMutation) (db out : Db)
    → deletes_nothing m ≡ true
    → apply_mutation m db ≡ ok out
    → Extends old db.revisions
    → Extends old out.revisions
unfolding apply_mutation
Extends-apply old (create_page page none) db out keeps h x =
    subst (λ d. Extends old d.revisions) (sym (insert_page-ok _ db out h).1) x
Extends-apply old (create_page page (some rev)) db out keeps h x =
    let headless = record page { current_revision_id = none } in
    let (db1, h1, h2) = and_then-ok (insert_page headless db) _ out h in
    let (db2, h3, h4) = and_then-ok (insert_revision rev db1) _ out h2 in
    subst (λ d. Extends old d.revisions) (sym (update_page-ok _ db2 out h4))
      (Extends-insert old rev db1 db2 h3
        (subst (λ d. Extends old d.revisions) (sym (insert_page-ok headless db db1 h1).1) x))
Extends-apply old (commit_revision page rev) db out keeps h x =
    let (db1, h1, h2) = and_then-ok (insert_revision rev db) _ out h in
    subst (λ d. Extends old d.revisions) (sym (update_page-ok page db1 out h2))
      (Extends-insert old rev db db1 h1 x)
Extends-apply old (update page) db out keeps h x =
    subst (λ d. Extends old d.revisions) (sym (update_page-ok page db out h)) x
Extends-apply old (delete page_id) db out keeps h x = cc
Extends-apply old audit_only db out keeps h x =
    subst (λ d. Extends old d.revisions) (ok-injective _ _ h) x

Extends-commit :
    (old : List Revision) (m : PageAuditMutation) (audit : AuditEntry) (db out : Db)
    → deletes_nothing m ≡ true
    → commit_page_audit m audit db ≡ ok out
    → Extends old db.revisions
    → Extends old out.revisions
unfolding commit_page_audit insert_audit
Extends-commit old m audit db out keeps h x =
    let (ready, v, h1) = and_then-ok (validate_mutation m) _ out h in
    let (db1, h2, h3) = and_then-ok (apply_mutation m db) _ out h1 in
    subst (λ d. Extends old d.revisions) (ok-injective _ _ h3)
      (Extends-apply old m db db1 keeps h2 x)

-- Well-formed tables that hold the old revisions.
pub record Continues (old : List Revision) (db : Db) : Type 0 where
  pub sound : WellFormed db
  pub extends : Extends old db.revisions

pub Kept-Continues : (old : List Revision) → Kept (Continues old)
Kept-Continues old = record {
  respects = λ db out u c. record {
    sound = Untouched-WellFormed db out u c.sound;
    extends = subst (Extends old) (sym u.same_revisions) c.extends;
  };
  well_formed = λ db c. c.sound;
  commits = λ m audit w keeps linear c. write-runs (Continues old) _ w c (λ out e. record {
    sound = commit_page_audit-WellFormed m audit w.db out linear e c.sound;
    extends = Extends-commit old m audit w.db out keeps e c.extends;
  });
}
