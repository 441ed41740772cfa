-- ===== src/Storage/PageAudit/Published.antt =====
-- What a committed revision is afterwards: the head of its page.
use thewiki.Prelude.{◌≡◌, refl, sym, ap, ◌∙◌, ℕ, some}
use mathlib.Core.Option.{map as map_option}
use thewiki.Prelude.Result.{ok, and_then-ok, ok-injective, some-ok}
use thewiki.Prelude.Tests.{◌==◌, ==_refl, if◌then◌else◌}
use thewiki.Core.Page.{Page}
use thewiki.Core.Revision.{Revision}
use thewiki.Storage.Schema.{Db, AuditEntry, not_found}
use thewiki.Storage.Tables.{
  page_by_id, update_page, insert_revision, insert_audit, overwrite, update_where,
}
use thewiki.Storage.Tables.Lookup.{by_key, by_key-here, by_key-update}
use thewiki.Storage.Tables.Owned.{page_key, revision_key}
use thewiki.Storage.PageAudit.{
  commit_revision, validate_mutation, apply_mutation, commit_page_audit,
}
use thewiki.Storage.PageAudit.Invariant.{insert_revision-ok, update_page-ok}
use thewiki.Storage.Untouched.{Untouched}

-- The page's row names the revision as its head, and the revision is stored.
pub record Published (page_id : ℕ) (rev : Revision) (db : Db) : Type 0 where
  pub row : Page
  pub row_there : by_key page_key db.pages page_id ≡ some row
  pub head : row.current_revision_id ≡ some rev.id
  pub stored : by_key revision_key db.revisions rev.id ≡ some rev

pub Untouched-Published :
    (page_id : ℕ) (rev : Revision) (db out : Db)
    → Untouched db out
    → Published page_id rev db
    → Published page_id rev out
Untouched-Published page_id rev db out u p = record {
  row = p.row;
  row_there = ap (λ rows. by_key page_key rows page_id) u.same_pages ∙ p.row_there;
  head = p.head;
  stored = ap (λ rows. by_key revision_key rows rev.id) u.same_revisions ∙ p.stored;
}

update_page-there :
    (page : Page) (db out : Db)
    → update_page page db ≡ ok out
    → (row : Page) × (by_key page_key db.pages page.id ≡ some row)
unfolding update_page page_by_id
update_page-there page db out h =
    let (row, found, rest) = some-ok (page_by_id db.pages page.id) not_found _ out h in (row, found)

overwritten :
    (page : Page) (db : Db) (row : Page)
    → by_key page_key db.pages page.id ≡ some row
    → by_key page_key (update_where (λ p. p.id == page.id) (overwrite page) db.pages) page.id
      ≡ some (overwrite page row)
overwritten page db row found =
    by_key-update page_key (overwrite page) page.id (λ z. refl) db.pages page.id
    ∙ ap
        (λ b.
          if b
          then map_option (overwrite page) (by_key page_key db.pages page.id)
          else by_key page_key db.pages page.id)
        (==_refl page.id)
    ∙ ap (map_option (overwrite page)) found

pub commit_revision-Published :
    (page : Page) (rev : Revision) (audit : AuditEntry) (db out : Db)
    → page.current_revision_id ≡ some rev.id
    → commit_page_audit (commit_revision page rev) audit db ≡ ok out
    → Published page.id rev out
unfolding commit_page_audit apply_mutation insert_audit
commit_revision-Published page rev audit db out promoted h =
    let (ready, v, h') = and_then-ok (validate_mutation (commit_revision page rev)) _ out h in
    let (written, h1, h2) = and_then-ok (apply_mutation (commit_revision page rev) db) _ out h' in
    let (db1, h3, h4) = and_then-ok (insert_revision rev db) _ written h1 in
    let (absent, q) = insert_revision-ok rev db db1 h3 in
    let (row, found) = update_page-there page db1 written h4 in
    let same = update_page-ok page db1 written h4 in
    let done = sym (ok-injective _ _ h2) in
    record {
      row = overwrite page row;
      row_there =
          ap (λ d. by_key page_key d.pages page.id) done
          ∙ ap (λ d. by_key page_key d.pages page.id) same
          ∙ overwritten page db1 row found;
      head = promoted;
      stored =
          ap (λ d. by_key revision_key d.revisions rev.id) done
          ∙ ap (λ d. by_key revision_key d.revisions rev.id) same
          ∙ ap (λ d. by_key revision_key d.revisions rev.id) q
          ∙ by_key-here revision_key rev db.revisions rev.id (==_refl rev.id);
    }
