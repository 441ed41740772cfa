-- ===== src/Storage/PageAudit/Commit.antt =====
-- A whole commit keeps the tables well-formed.
use thewiki.Prelude.{◌∷◌, ◌∙◌, ap, ◌≡◌, refl, sym, subst, ℕ, true, Option, some, none, arith}
use thewiki.Prelude.Result.{ok, and_then-ok, ok-injective}
use thewiki.Prelude.Tests.{==_iff, ==_refl}
use thewiki.Core.Page.{Page}
use thewiki.Core.Revision.{Revision}
use thewiki.Storage.Schema.{Db, AuditEntry}
use thewiki.Storage.Tables.{insert_page, insert_revision, insert_audit, eq_option}
use thewiki.Storage.Tables.Owned.{Owned, revision_key}
use thewiki.Storage.Tables.Lookup.{by_key}
use thewiki.Storage.PageAudit.{
  PageAuditMutation, create_page, commit_revision, update, delete, audit_only, validate_mutation,
  apply_mutation, commit_page_audit,
}
use thewiki.Storage.PageAudit.Invariant.{
  WellFormed, insert_revision-ok, update_page-ok, insert_page-ok, insert_page-WellFormed,
  insert_revision-WellFormed, update_page-WellFormed, delete_page-WellFormed,
}

-- The parent, if there is one, is a revision of the page.
abbrev pub HasParent : Revision → Db → Type 0
HasParent rev db = (q : ℕ) → rev.parent_id ≡ some q → Owned db.revisions q rev.page_id

-- What a caller has to see to: the storage tests none of this.
abbrev pub IsLinear : PageAuditMutation → Db → Type 0
IsLinear (create_page page none) db = Unit
IsLinear (create_page page (some rev)) db = HasParent rev db
IsLinear (commit_revision page rev) db = HasParent rev db
IsLinear (update page) db =
    (r : ℕ) → page.current_revision_id ≡ some r → Owned db.revisions r page.id
IsLinear (delete page_id) db = Unit
IsLinear audit_only db = Unit

promoted :
    (page : Page) (rev : Revision) (ready : Unit {0})
    → validate_mutation (commit_revision page rev) ≡ ok ready
    → (rev.page_id ≡ page.id) × (eq_option page.current_revision_id rev.id ≡ true)
unfolding validate_mutation
promoted page rev ready h = ground (arith, ==_iff rev.page_id page.id)

promoted_new :
    (page : Page) (rev : Revision) (ready : Unit {0})
    → validate_mutation (create_page page (some rev)) ≡ ok ready
    → rev.page_id ≡ page.id
unfolding validate_mutation
promoted_new page rev ready h = ground (arith, ==_iff rev.page_id page.id)

is_head : (o : Option ℕ) (a r : ℕ) → eq_option o a ≡ true → o ≡ some r → a ≡ r
is_head none a r e h = cc
is_head (some b) a r e h = ground arith

Owned-head :
    (page : Page) (rev : Revision) (db : Db)
    → rev.page_id ≡ page.id
    → eq_option page.current_revision_id rev.id ≡ true
    → Owned db.revisions rev.id rev.page_id
    → (r : ℕ) → page.current_revision_id ≡ some r
    → Owned db.revisions r page.id
Owned-head page rev db same head own r h =
    subst (λ k. Owned db.revisions k page.id) (is_head page.current_revision_id rev.id r head h)
      (subst (Owned db.revisions rev.id) same own)

apply_mutation-WellFormed :
    (m : PageAuditMutation) (db out : Db) (ready : Unit {0})
    → validate_mutation m ≡ ok ready
    → IsLinear m db
    → apply_mutation m db ≡ ok out
    → WellFormed db
    → WellFormed out
unfolding apply_mutation
apply_mutation-WellFormed (create_page page none) db out ready v l h w =
    insert_page-WellFormed (record page { current_revision_id = none }) db out refl h w
apply_mutation-WellFormed (create_page page (some rev)) db out ready v l h w =
    let headless = record page { current_revision_id = none } in
    let (db1, h1, h') = and_then-ok (insert_page headless db) _ out h in
    let (db2, h2, h3) = and_then-ok (insert_revision rev db1) _ out h' in
    let w1 = insert_page-WellFormed headless db db1 refl h1 w in
    let keeps = (insert_page-ok headless db db1 h1).1 in
    let (w2, own) =
      insert_revision-WellFormed rev db1 db2
        (λ q u. subst (λ d. Owned d.revisions q rev.page_id) (sym keeps) (l q u)) h2 w1 in
    let live = record page { current_revision_id = some rev.id } in
    update_page-WellFormed live db2 out
      (Owned-head live rev db2 (promoted_new page rev ready v) (==_refl rev.id) own) h3 w2
apply_mutation-WellFormed (commit_revision page rev) db out ready v l h w =
    let (db1, h1, h') = and_then-ok (insert_revision rev db) _ out h in
    let (w1, own) = insert_revision-WellFormed rev db db1 l h1 w in
    let (same, head) = promoted page rev ready v in
    update_page-WellFormed page db1 out (Owned-head page rev db1 same head own) h' w1
apply_mutation-WellFormed (update page) db out ready v l h w =
    update_page-WellFormed page db out l h w
apply_mutation-WellFormed (delete page_id) db out ready v l h w =
    delete_page-WellFormed page_id db out h w
apply_mutation-WellFormed audit_only db out ready v l h w = subst WellFormed (ok-injective _ _ h) w

pub commit_page_audit-WellFormed :
    (m : PageAuditMutation) (audit : AuditEntry) (db out : Db)
    → IsLinear m db
    → commit_page_audit m audit db ≡ ok out
    → WellFormed db
    → WellFormed out
unfolding commit_page_audit insert_audit
commit_page_audit-WellFormed m audit db out l h w =
    let (ready, v, h') = and_then-ok (validate_mutation m) _ out h in
    let (db1, h1, h2) = and_then-ok (apply_mutation m db) _ out h' in
    let w1 = apply_mutation-WellFormed m db db1 ready v l h1 w in
    subst WellFormed (ok-injective _ _ h2) (record {
      pages_distinct = w1.pages_distinct;
      revisions_distinct = w1.revisions_distinct;
      heads = w1.heads;
      parents = w1.parents;
    })

pub audit_only-ok :
    (audit : AuditEntry) (db out : Db)
    → commit_page_audit audit_only audit db ≡ ok out
    → out ≡ insert_audit audit db
unfolding commit_page_audit validate_mutation apply_mutation
audit_only-ok audit db out h = sym (ok-injective _ _ h)

pub commit_revision-ok :
    (page : Page) (rev : Revision) (audit : AuditEntry) (db out : Db)
    → commit_page_audit (commit_revision page rev) audit db ≡ ok out
    → (by_key revision_key db.revisions rev.id ≡ none) × (out.revisions ≡ rev ∷ db.revisions)
unfolding commit_page_audit apply_mutation insert_audit
commit_revision-ok page rev audit db out h =
    let (ready, v, h') = and_then-ok (validate_mutation (commit_revision page rev)) _ out h in
    let (written, h1, h2) = and_then-ok (apply_mutation (commit_revision page rev) db) _ out h' in
    let (db1, h3, h4) = and_then-ok (insert_revision rev db) _ written h1 in
    let (absent, q) = insert_revision-ok rev db db1 h3 in
    (
      absent,
      sym (ap (λ d. d.revisions) (ok-injective _ _ h2))
          ∙ ap (λ d. d.revisions) (update_page-ok page db1 written h4)
          ∙ ap (λ d. d.revisions) q,
    )
