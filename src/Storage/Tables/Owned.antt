-- ===== src/Storage/Tables/Owned.antt =====
-- Revisions that are there and belong to a page: heads and parents, after each statement.
use thewiki.Prelude.{
  ◌≡◌, refl, ap, subst, ◌∙◌, sym, ℕ, Bool, true, false, not, List, ◌∷◌, Option, some, none, arith,
  map, inl, inr,
}
use mathlib.Core.Option.{map as map_option, some-injective}
use thewiki.Prelude.Tests.{◌==◌, ==_iff, Bool-cases}
use thewiki.Core.Page.{Page}
use thewiki.Core.Revision.{Revision}
use thewiki.Storage.Tables.{filter, update_where, overwrite, clear_parent, clear_head, clear_if}
use thewiki.Storage.Tables.Lookup.{
  by_key, map_option-some, by_key-here, by_key-there, by_key-fresh, Distinct, by_key-key,
  by_key-update, by_key-map, by_key-filter, by_key-filter-some,
}

abbrev pub page_key : Page → ℕ
page_key p = p.id

abbrev pub revision_key : Revision → ℕ
revision_key r = r.id

-- The revision is there, and is one of the page.
abbrev pub Owned : List Revision → ℕ → ℕ → Type 0
Owned rows id page_id =
    (r : Revision) × (by_key revision_key rows id ≡ some r) × (r.page_id ≡ page_id)

abbrev pub Heads : List Page → List Revision → Type 0
Heads pages rows =
    (p : ℕ) (page : Page) (r : ℕ)
    → by_key page_key pages p ≡ some page
    → page.current_revision_id ≡ some r
    → Owned rows r p

abbrev pub Parents : List Revision → Type 0
Parents rows =
    (id : ℕ) (rev : Revision) (q : ℕ)
    → by_key revision_key rows id ≡ some rev
    → rev.parent_id ≡ some q
    → Owned rows q rev.page_id

pub Owned-cons :
    (rows : List Revision) (rev : Revision) (id p : ℕ)
    → by_key revision_key rows rev.id ≡ none
    → Owned rows id p
    → Owned (rev ∷ rows) id p
Owned-cons rows rev id p fresh (r, found, own) =
    (r, by_key-fresh revision_key rev rows id r fresh found, own)

pub Parents-cons :
    (rows : List Revision) (rev : Revision)
    → by_key revision_key rows rev.id ≡ none
    → ((q : ℕ) → rev.parent_id ≡ some q → Owned rows q rev.page_id)
    → Parents rows
    → Parents (rev ∷ rows)
Parents-cons rows rev fresh own parents id r q found up = elim (Bool-cases (rev.id == id)) [
  | inl e ↦
      let same = some-injective _ _ (sym (by_key-here revision_key rev rows id e) ∙ found) in
      subst (λ z. z.parent_id ≡ some q → Owned (rev ∷ rows) q z.page_id) same
        (λ u. Owned-cons rows rev q rev.page_id fresh (own q u)) up
  | inr e ↦
      Owned-cons rows rev q r.page_id fresh
        (parents id r q (sym (by_key-there revision_key rev rows id e) ∙ found) up)
]

-- A new page without a head needs no revision.
pub Heads-cons :
    (pages : List Page) (rows : List Revision) (page : Page)
    → page.current_revision_id ≡ none
    → Heads pages rows
    → Heads (page ∷ pages) rows
Heads-cons pages rows page headless heads p row r found head = elim (Bool-cases (page.id == p)) [
  | inl e ↦
      let same = some-injective _ _ (sym (by_key-here page_key page pages p e) ∙ found) in
      let absurd = sym headless ∙ ap (λ z. z.current_revision_id) same ∙ head in cc
  | inr e ↦ heads p row r (sym (by_key-there page_key page pages p e) ∙ found) head
]

pub Heads-revision :
    (pages : List Page) (rows : List Revision) (rev : Revision)
    → by_key revision_key rows rev.id ≡ none
    → Heads pages rows
    → Heads pages (rev ∷ rows)
Heads-revision pages rows rev fresh heads p row r found head =
    Owned-cons rows rev r p fresh (heads p row r found head)

pub Heads-update :
    (pages : List Page) (rows : List Revision) (page : Page)
    → ((r : ℕ) → page.current_revision_id ≡ some r → Owned rows r page.id)
    → Heads pages rows
    → Heads (update_where (λ p. p.id == page.id) (overwrite page) pages) rows
Heads-update pages rows page own heads p row r found head = elim (Bool-cases (p == page.id)) [
  | inl e ↦
      let (old, was, q) = map_option-some (overwrite page) (by_key page_key pages p) row (
        sym (by_key-update page_key (overwrite page) page.id (λ z. refl) pages p ∙ rw e) ∙ found) in
      subst (Owned rows r) (sym ((==_iff p page.id).0 e))
        (own r (ap (λ z. z.current_revision_id) q ∙ head))
  | inr e ↦
      heads p row r
        (sym (by_key-update page_key (overwrite page) page.id (λ q. refl) pages p ∙ rw e) ∙ found)
        head
]

-- The row stays, since its page is another one.
not_eq : (a p page_id : ℕ) → a ≡ p → (p == page_id) ≡ false → not (a == page_id) ≡ true
not_eq a p page_id q other = ground arith

clear_if-some : (gone : ℕ → Bool) (o : Option ℕ) (r : ℕ) → clear_if gone o ≡ some r → o ≡ some r
clear_if-some gone none r h = h
clear_if-some gone (some id) r h = ground arith

kept : (a p page_id : ℕ) → a ≡ p → not (a == page_id) ≡ true → (p == page_id) ≡ false
kept a p page_id q other = ground arith

Owned-cascade :
    (rows : List Revision) (page_id : ℕ) (gone : ℕ → Bool) (id p : ℕ)
    → (p == page_id) ≡ false
    → Owned rows id p
    → Owned (map (clear_parent gone) (filter (λ r. not (r.page_id == page_id)) rows)) id p
Owned-cascade rows page_id gone id p other (r, found, own) = (
  clear_parent gone r,
  by_key-map revision_key (clear_parent gone) (λ z. refl) _ id
      ∙ ap (map_option (clear_parent gone)) (
          by_key-filter-some revision_key (λ z. not (z.page_id == page_id)) rows id r found
            (not_eq r.page_id p page_id own other)),
  own,
)

pub Heads-cascade :
    (pages : List Page) (rows : List Revision) (page_id : ℕ) (gone : ℕ → Bool)
    → Distinct page_key pages
    → Heads pages rows
    → Heads
        (map (clear_head gone) (filter (λ p. not (p.id == page_id)) pages))
        (map (clear_parent gone) (filter (λ r. not (r.page_id == page_id)) rows))
Heads-cascade pages rows page_id gone distinct heads p row r found head =
    let (old, was, q) =
      map_option-some (clear_head gone) _ row
        (sym (by_key-map page_key (clear_head gone) (λ z. refl) _ p) ∙ found) in
    let (there, stays) =
      by_key-filter page_key (λ z. not (z.id == page_id)) pages p old distinct was in
    Owned-cascade rows page_id gone r p
      (kept old.id p page_id (by_key-key page_key pages p old there) stays)
      (heads p old r there
        (clear_if-some gone old.current_revision_id r (ap (λ z. z.current_revision_id) q ∙ head)))

pub Parents-cascade :
    (rows : List Revision) (page_id : ℕ) (gone : ℕ → Bool)
    → Distinct revision_key rows
    → Parents rows
    → Parents (map (clear_parent gone) (filter (λ r. not (r.page_id == page_id)) rows))
Parents-cascade rows page_id gone distinct parents id rev k found up =
    let (old, was, q) =
      map_option-some (clear_parent gone) _ rev
        (sym (by_key-map revision_key (clear_parent gone) (λ z. refl) _ id) ∙ found) in
    let (there, stays) =
      by_key-filter revision_key (λ z. not (z.page_id == page_id)) rows id old distinct was in
    let same = ap (λ z. z.page_id) q in
    Owned-cascade rows page_id gone k rev.page_id (kept old.page_id rev.page_id page_id same stays)
      (subst (Owned rows k) same (
        parents id old k there (clear_if-some gone old.parent_id k (ap (λ z. z.parent_id) q ∙ up))))
