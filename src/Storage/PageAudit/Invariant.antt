-- ===== src/Storage/PageAudit/Invariant.antt =====
-- The tables stay well-formed: distinct keys, a head that is a revision of its own page, a parent
-- that is a revision of the same page.
use thewiki.Prelude.{◌≡◌, refl, sym, subst, ℕ, Bool, false, ◌||◌, ◌∷◌, Option, some, none}
use thewiki.Prelude.Result.{ok, unless-ok, when-ok, some-ok}
use thewiki.Prelude.Tests.{◌==◌, ==_refl}
use thewiki.Core.Page.{Page}
use thewiki.Core.Revision.{Revision}
use thewiki.Storage.Schema.{Db}
use thewiki.Storage.Tables.{
  clear_head, clear_parent, page_by_id, revision_by_id, is_there, insert_page, insert_revision,
  overwrite, update_where, update_page, delete_page,
}
use thewiki.Storage.Tables.Lookup.{
  by_key, by_key-here, Distinct, Distinct-filter, Distinct-update, Distinct-map,
}
use thewiki.Storage.Tables.Owned.{
  page_key, revision_key, Owned, Heads, Parents, Parents-cons, Heads-cons, Heads-revision,
  Heads-update, Heads-cascade, Parents-cascade,
}

pub record WellFormed (db : Db) : Type 0 where
  pub pages_distinct : Distinct page_key db.pages
  pub revisions_distinct : Distinct revision_key db.revisions
  pub heads : Heads db.pages db.revisions
  pub parents : Parents db.revisions

absent_row : {A : Type 0} (o : Option A) → is_there o ≡ false → o ≡ none
absent_row none h = refl
absent_row (some a) h = cc

absent_left : {A : Type 0} (o : Option A) (b : Bool) → (is_there o || b) ≡ false → o ≡ none
absent_left none b h = refl
absent_left (some a) b h = cc

-- What a statement that succeeds leaves.
pub insert_page-ok :
    (page : Page) (db out : Db)
    → insert_page page db ≡ ok out
    → (by_key page_key db.pages page.id ≡ none) × (out ≡ record db { pages = page ∷ db.pages })
unfolding insert_page page_by_id
insert_page-ok page db out h =
    let (absent, h') = unless-ok _ _ _ out h in
    let (refers, q) = when-ok _ _ _ out h' in
    (absent_left (by_key page_key db.pages page.id) _ absent, q)

pub insert_revision-ok :
    (rev : Revision) (db out : Db)
    → insert_revision rev db ≡ ok out
    → (by_key revision_key db.revisions rev.id ≡ none)
      × (out ≡ record db { revisions = rev ∷ db.revisions })
unfolding insert_revision revision_by_id
insert_revision-ok rev db out h =
    let (absent, h') = unless-ok _ _ _ out h in
    let (refers, q) = when-ok _ _ _ out h' in
    (absent_row (by_key revision_key db.revisions rev.id) absent, q)

pub update_page-ok :
    (page : Page) (db out : Db)
    → update_page page db ≡ ok out
    → out ≡ record db { pages = update_where (λ p. p.id == page.id) (overwrite page) db.pages }
unfolding update_page
update_page-ok page db out h =
    let (row, found, h') = some-ok (page_by_id db.pages page.id) _ _ out h in
    let (free, h2) = unless-ok _ _ _ out h' in (when-ok _ _ _ out h2).1

pub insert_page-WellFormed :
    (page : Page) (db out : Db)
    → page.current_revision_id ≡ none
    → insert_page page db ≡ ok out
    → WellFormed db
    → WellFormed out
insert_page-WellFormed page db out headless h w =
    let (absent, q) = insert_page-ok page db out h in
    subst WellFormed (sym q) (record {
      pages_distinct = (absent, w.pages_distinct);
      revisions_distinct = w.revisions_distinct;
      heads = Heads-cons db.pages db.revisions page headless w.heads;
      parents = w.parents;
    })

pub insert_revision-WellFormed :
    (rev : Revision) (db out : Db)
    → ((q : ℕ) → rev.parent_id ≡ some q → Owned db.revisions q rev.page_id)
    → insert_revision rev db ≡ ok out
    → WellFormed db
    → WellFormed out × Owned out.revisions rev.id rev.page_id
insert_revision-WellFormed rev db out own h w =
    let (absent, q) = insert_revision-ok rev db out h in
    (
      subst WellFormed (sym q) (record {
        pages_distinct = w.pages_distinct;
        revisions_distinct = (absent, w.revisions_distinct);
        heads = Heads-revision db.pages db.revisions rev absent w.heads;
        parents = Parents-cons db.revisions rev absent own w.parents;
      }),
      subst (λ d. Owned d.revisions rev.id rev.page_id) (sym q)
          (rev, by_key-here revision_key rev db.revisions rev.id (==_refl rev.id), refl),
    )

pub update_page-WellFormed :
    (page : Page) (db out : Db)
    → ((r : ℕ) → page.current_revision_id ≡ some r → Owned db.revisions r page.id)
    → update_page page db ≡ ok out
    → WellFormed db
    → WellFormed out
update_page-WellFormed page db out own h w =
    subst WellFormed (sym (update_page-ok page db out h)) (record {
      pages_distinct =
          Distinct-update page_key (overwrite page) page.id (λ z. refl) db.pages w.pages_distinct;
      revisions_distinct = w.revisions_distinct;
      heads = Heads-update db.pages db.revisions page own w.heads;
      parents = w.parents;
    })

pub delete_page-WellFormed :
    (page_id : ℕ) (db out : Db) → delete_page page_id db ≡ ok out → WellFormed db → WellFormed out
unfolding delete_page
delete_page-WellFormed page_id db out h w = subst WellFormed (sym (when-ok _ _ _ out h).1) (record {
  pages_distinct =
      Distinct-map page_key (clear_head _) (λ z. refl) _
        (Distinct-filter page_key _ db.pages w.pages_distinct);
  revisions_distinct =
      Distinct-map revision_key (clear_parent _) (λ z. refl) _
        (Distinct-filter revision_key _ db.revisions w.revisions_distinct);
  heads = Heads-cascade db.pages db.revisions page_id _ w.pages_distinct w.heads;
  parents = Parents-cascade db.revisions page_id _ w.revisions_distinct w.parents;
})
