-- ===== src/Storage/Untouched.antt =====
-- The statements on a page's relations, the users and the queue leave the pages and the revisions
-- alone.
use thewiki.Prelude.{◌∙◌, ◌≡◌, refl, sym, subst, ℕ, not, List, [], ◌∷◌}
use thewiki.Prelude.Result.{ok, unless-ok, when-ok, otherwise-ok, ok-injective}
use thewiki.Prelude.Lists.{all}
use thewiki.Prelude.Tests.{◌==◌}
use thewiki.Prelude.Text.{Text}
use thewiki.Core.PendingRevision.{PendingRevision}
use thewiki.Storage.Schema.{Db, database, PageLink, Notification, User, AuditEntry}
use thewiki.Storage.Relations.{
  foreign_source, insert_links, replace_links, assign_tags, replace_categories, notify, create_user,
}
use thewiki.Storage.Tables.{insert_audit, is_there, page_by_id}
use thewiki.Storage.Pending.{NewPendingRevision, create, decide, DecisionKind}
use thewiki.Storage.Tables.Lookup.{Distinct}
use thewiki.Storage.Tables.Owned.{Heads, Parents, page_key, revision_key}
use thewiki.Storage.Pending.Decide.{decide-ok}
use thewiki.Storage.PageAudit.Invariant.{WellFormed}

pub record Untouched (db out : Db) : Type 0 where
  pub same_pages : out.pages ≡ db.pages
  pub same_revisions : out.revisions ≡ db.revisions

pub Untouched-trans : (a b c : Db) → Untouched a b → Untouched b c → Untouched a c
Untouched-trans a b c u v = record {
  same_pages = v.same_pages ∙ u.same_pages;
  same_revisions = v.same_revisions ∙ u.same_revisions;
}

pub Untouched-refl : (a : Db) → Untouched a a
Untouched-refl a = record { same_pages = refl; same_revisions = refl }

pub Untouched-WellFormed : (db out : Db) → Untouched db out → WellFormed db → WellFormed out
Untouched-WellFormed db out u w = record {
  pages_distinct = subst (Distinct page_key) (sym u.same_pages) w.pages_distinct;
  revisions_distinct = subst (Distinct revision_key) (sym u.same_revisions) w.revisions_distinct;
  heads =
      subst (λ ps. Heads ps out.revisions) (sym u.same_pages)
        (subst (Heads db.pages) (sym u.same_revisions) w.heads);
  parents = subst Parents (sym u.same_revisions) w.parents;
}

insert_links-Untouched :
    (source : ℕ) (l : PageLink) (ls : List PageLink) (db out : Db)
    → insert_links source l ls db ≡ ok out
    → Untouched db out
unfolding insert_links
insert_links-Untouched source l ls db out h =
    let (own, h1) = unless-ok (not (l.source_page_id == source)) foreign_source _ out h in
    let (there, h2) = unless-ok (not (is_there (page_by_id db.pages source))) database _ out h1 in
    subst (Untouched db)
      (sym
        (otherwise-ok (not (all (λ k. k.source_page_id == source) ls)) foreign_source _ out h2).1)
      (record { same_pages = refl; same_revisions = refl })

pub replace_links-Untouched :
    (source : ℕ) (links : List PageLink) (db out : Db)
    → replace_links source links db ≡ ok out
    → Untouched db out
unfolding replace_links
replace_links-Untouched source [] db out h =
    subst (Untouched db) (ok-injective _ _ h) (record { same_pages = refl; same_revisions = refl })
replace_links-Untouched source (l ∷ ls) db out h = insert_links-Untouched source l ls db out h

pub assign_tags-Untouched :
    (page_id : ℕ) (tags : List Text) (db out : Db)
    → assign_tags page_id tags db ≡ ok out
    → Untouched db out
unfolding assign_tags
assign_tags-Untouched page_id [] db out h =
    subst (Untouched db) (ok-injective _ _ h) (record { same_pages = refl; same_revisions = refl })
assign_tags-Untouched page_id (t ∷ ts) db out h =
    subst (Untouched db) (sym (when-ok _ _ _ out h).1)
      (record { same_pages = refl; same_revisions = refl })

pub replace_categories-Untouched :
    (page_id : ℕ) (ids : List ℕ) (db out : Db)
    → replace_categories page_id ids db ≡ ok out
    → Untouched db out
unfolding replace_categories
replace_categories-Untouched page_id [] db out h =
    subst (Untouched db) (ok-injective _ _ h) (record { same_pages = refl; same_revisions = refl })
replace_categories-Untouched page_id (i ∷ ids) db out h =
    subst (Untouched db) (sym (when-ok _ _ _ out h).1)
      (record { same_pages = refl; same_revisions = refl })

pub notify-Untouched : (n : Notification) (db out : Db) → notify n db ≡ ok out → Untouched db out
unfolding notify
notify-Untouched n db out h =
    subst (Untouched db) (sym (when-ok _ _ _ out h).1)
      (record { same_pages = refl; same_revisions = refl })

pub create_user-Untouched :
    (user : User) (db out : Db) → create_user user db ≡ ok out → Untouched db out
unfolding create_user
create_user-Untouched user db out h =
    subst (Untouched db) (sym (otherwise-ok _ _ _ out h).1)
      (record { same_pages = refl; same_revisions = refl })

pub create-Untouched :
    (id now_utc : ℕ) (row : NewPendingRevision) (db out : Db)
    → create id now_utc row db ≡ ok out
    → Untouched db out
unfolding create
create-Untouched id now_utc row db out h =
    subst (Untouched db) (sym (when-ok _ _ _ out h).1)
      (record { same_pages = refl; same_revisions = refl })

pub insert_audit-Untouched : (entry : AuditEntry) (db : Db) → Untouched db (insert_audit entry db)
unfolding insert_audit
insert_audit-Untouched entry db = record { same_pages = refl; same_revisions = refl }

pub decide-Untouched :
    (id reviewer now_utc : ℕ) (kind : DecisionKind) (db out : Db) (now : PendingRevision)
    → decide id reviewer now_utc kind db ≡ ok (now, out)
    → Untouched db out
decide-Untouched id reviewer now_utc kind db out now h =
    let (row, found, open_row, is_now, is_out) = decide-ok id reviewer now_utc kind db out now h in
    subst (Untouched db) (sym is_out) (record { same_pages = refl; same_revisions = refl })
