-- ===== src/Api/PendingRevisions/Approved.antt =====
-- What an approval that succeeds has done.
use thewiki.Prelude.{◌≡◌, refl, sym, ap, ◌∙◌, subst, ℕ, true, Option, some, arith}
use thewiki.Prelude.Result.{Result, ok, and_then-ok}
use thewiki.Core.Page.{Page, Namespace}
use thewiki.Core.Revision.{Revision}
use thewiki.Core.PendingRevision.{PendingRevision, is_pending}
use thewiki.Storage.Schema.{Db}
use thewiki.Storage.Tables.Lookup.{by_key}
use thewiki.Storage.Tables.Owned.{page_key}
use thewiki.Storage.PageAudit.{commit_page_audit, commit_revision}
use thewiki.Storage.PageAudit.Published.{Published, Untouched-Published, commit_revision-Published}
use thewiki.Storage.Pending.{decide, DecisionKind, pending_by_id}
use thewiki.Storage.Untouched.{Untouched, Untouched-trans, Untouched-refl}
use thewiki.Api.Editor.{Editor}
use thewiki.Api.Exec.{ApiError, World, write, query, transact}
use thewiki.Api.Exec.Keeps.{bind-ok, write-ok}
use thewiki.Api.Pages.{Env}
use thewiki.Api.PendingRevisions.{
  found, require_review, open_to, reviewable, page_and_namespace, promoted_author, promoted_page,
  promoted_revision, approve_audit, promote_rest, promote, approve_pending,
}
use thewiki.Api.PendingRevisions.Tables.{
  found-ok, page_and_namespace-ok, page_and_namespace-id, promoted_author-Keeps, promote_rest-Keeps,
}

promote-Published :
    (env : Env) (actor : Editor) (row : PendingRevision) (author : ℕ) (place : Page × Namespace)
    (now result : PendingRevision) (w : World)
    → (promote env actor row author place now w).0 ≡ ok result
    → Published place.0.id
        (promoted_revision env row place.0 author)
        (promote env actor row author place now w).1.db
unfolding promote
promote-Published env actor row author place now result w h =
    let rev = promoted_revision env row place.0 author in
    let commit = write (
      commit_page_audit (commit_revision (promoted_page env place.0) rev)
        (approve_audit env actor row place.0 place.1)) in
    let (done, committed, q) =
      bind-ok commit (λ c. promote_rest env actor row place now) w result h in
    subst (λ (z : Result ApiError PendingRevision × World). Published place.0.id rev z.1.db) (sym q)
      (promote_rest-Keeps (Published place.0.id rev) (Untouched-Published place.0.id rev) env actor
        row place now (commit w).1
        (commit_revision-Published (promoted_page env place.0) rev
          (approve_audit env actor row place.0 place.1) w.db (commit w).1.db refl
          (write-ok _ w done committed)))

open_to-ok :
    (actor : Editor) (row same : PendingRevision)
    → open_to actor row ≡ ok same
    → (same ≡ row) × (is_pending row.status ≡ true)
unfolding open_to
open_to-ok actor row same h = ground arith

reviewable-ok :
    (actor : Editor) (id : ℕ) (db : Db) (row : PendingRevision)
    → reviewable actor id db ≡ ok row
    → (pending_by_id db.pending_revisions id ≡ some row) × (is_pending row.status ≡ true)
unfolding reviewable
reviewable-ok actor id db row h =
    let (stored, h0, h1) =
      and_then-ok (found (pending_by_id db.pending_revisions id)) (open_to actor) row h in
    let (same, waits) = open_to-ok actor stored row h1 in
    (
      found-ok (pending_by_id db.pending_revisions id) stored h0 ∙ ap (λ r. some r) (sym same),
      ap (λ r. is_pending r.status) same ∙ waits,
    )

author-Untouched :
    (uid : ℕ) (author : Option ℕ) (w : World) → Untouched w.db (promoted_author uid author w).1.db
author-Untouched uid author w =
    promoted_author-Keeps (Untouched w.db) (λ db out u p. Untouched-trans w.db db out p u) uid
      author w (Untouched-refl w.db)

-- If the approval succeeds, then the row was pending, and its page's head is now a stored revision with
-- the row's body, on top of the head that the page had.
pub approve_pending-Published :
    (env : Env) (anonymous : ℕ) (actor : Editor) (id : ℕ) (w : World) (result : PendingRevision)
    → (approve_pending env anonymous actor id w).0 ≡ ok result
    → (row : PendingRevision) × (pending_by_id w.db.pending_revisions id ≡ some row)
      × (is_pending row.status ≡ true)
      × (page : Page) × (by_key page_key w.db.pages page.id ≡ some page)
      × (page.id ≡ row.page_id)
      × (rev : Revision) × (rev.body ≡ row.body)
      × (rev.parent_id ≡ page.current_revision_id)
      × Published page.id rev (approve_pending env anonymous actor id w).1.db
unfolding approve_pending query
approve_pending-Published env anonymous actor id w result h =
    let (may, granted, q0) = bind-ok (query (λ db. require_review actor)) _ w result h in
    let (row, open_row, q1) =
      bind-ok (query (reviewable actor id)) _ w result (sym (ap (λ r. r.0) q0) ∙ h) in
    let whole1 = q0 ∙ q1 in
    let (author, credited, q2) =
      bind-ok (promoted_author anonymous row.author_id) _ w result
        (sym (ap (λ r. r.0) whole1) ∙ h) in
    let whole2 = whole1 ∙ q2 in
    let w1 = (promoted_author anonymous row.author_id w).1 in
    let (place, placed, q3) =
      bind-ok (query (page_and_namespace row.page_id)) _ w1 result
        (sym (ap (λ r. r.0) whole2) ∙ h) in
    let whole3 = whole2 ∙ q3 in
    let choice = transact (decide id actor.user_id env.now_utc DecisionKind.approve) in
    let (now, agreed, q4) =
      bind-ok choice (promote env actor row author place) w1 result
        (sym (ap (λ r. r.0) whole3) ∙ h) in
    let whole4 = whole3 ∙ q4 in
    let (there, waits) = reviewable-ok actor id w.db row open_row in
    let u = author-Untouched anonymous row.author_id w in
    (
      row,
      there,
      waits,
      place.0,
      sym (ap (λ rows. by_key page_key rows place.0.id) u.same_pages)
          ∙ page_and_namespace-ok row.page_id w1.db place placed,
      page_and_namespace-id row.page_id w1.db place placed,
      promoted_revision env row place.0 author,
      refl,
      refl,
      subst
          (λ (z : Result ApiError PendingRevision × World).
            Published place.0.id (promoted_revision env row place.0 author) z.1.db)
          (sym whole4)
          (promote-Published env actor row author place now result (choice w1).1
            (sym (ap (λ r. r.0) whole4) ∙ h)),
    )
