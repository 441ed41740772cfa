-- ===== src/Api/PendingRevisions/Tables.antt =====
-- The reviewers' handlers keep the tables well-formed.
use thewiki.Prelude.{◌∙◌, ◌≡◌, refl, sym, ap, subst, ℕ, Option, some, none}
use thewiki.Prelude.Result.{map_err, Result, ok, err, and_then-ok, ok-injective}
use thewiki.Prelude.Tests.{if-either}
use thewiki.Prelude.Text.{Text}
use thewiki.Core.Page.{Page, Namespace}
use thewiki.Core.PendingRevision.{PendingRevision}
use thewiki.Core.Revision.{Revision}
use thewiki.Storage.Schema.{Db, Notification, StorageError}
use thewiki.Storage.Tables.{page_by_id, user_exists}
use thewiki.Storage.Tables.Lookup.{by_key, by_key-key}
use thewiki.Storage.Relations.{namespace_by_id, create_user}
use thewiki.Storage.Tables.Owned.{page_key, Owned}
use thewiki.Storage.PageAudit.{commit_revision}
use thewiki.Storage.PageAudit.Commit.{HasParent}
use thewiki.Storage.Pending.{decide, DecisionKind}
use thewiki.Storage.Untouched.{
  Untouched, decide-Untouched, notify-Untouched, create_user-Untouched, insert_audit-Untouched,
}
use thewiki.Api.Editor.{Editor}
use thewiki.Api.Kept.{Kept}
use thewiki.Api.Exec.{ApiError, from_storage, transact, World, ◌>>=◌, query}
use thewiki.Api.Exec.Keeps.{
  Keeps, then-Keeps, bind-runs, bind-Keeps, pure-Keeps, query-Keeps, write-Keeps, transact-Keeps,
  transact-ok, attempt-Keeps,
}
use thewiki.Api.Pages.{Env}
use thewiki.Api.Pages.Shared.{update_page_links-Keeps, HasParent-head}
use thewiki.Api.PendingRevisions.{
  found, anonymous_user, provisioned, ensure_anonymous_user, promoted_author, promoted_revision,
  notify_author, promote_rest, promote, approve_pending, record_rejection, reject_pending,
  page_and_namespace,
}

pub found-ok : {A : Type 0} (o : Option A) (a : A) → found o ≡ ok a → o ≡ some a
found-ok none a h = cc
found-ok (some b) a h = ap (λ z. some z) (ok-injective _ _ h)

pub page_and_namespace-ok :
    (page_id : ℕ) (db : Db) (place : Page × Namespace)
    → page_and_namespace page_id db ≡ ok place
    → by_key page_key db.pages place.0.id ≡ some place.0
unfolding page_and_namespace page_by_id
page_and_namespace-ok page_id db place h =
    let (page, h0, h1) = and_then-ok (found (page_by_id db.pages page_id)) _ place h in
    let (namespace, h2, h3) =
      and_then-ok (map_err from_storage (namespace_by_id page.namespace_id db)) _ place h1 in
    let same = ap (λ z. z.0) (ok-injective _ _ h3) in
    let there = found-ok (page_by_id db.pages page_id) page h0 in
    subst (λ p. by_key page_key db.pages p.id ≡ some p) same
      (subst (λ k. by_key page_key db.pages k ≡ some page)
        (sym (by_key-key page_key db.pages page_id page there)) there)

-- The decision changes no revision, so the head that was read is still a parent.
decided-HasParent :
    (rev : Revision) (id reviewer now_utc : ℕ) (kind : DecisionKind) (w : World)
    (now : PendingRevision)
    → (transact (decide id reviewer now_utc kind) w).0 ≡ ok now
    → HasParent rev w.db
    → HasParent rev (transact (decide id reviewer now_utc kind) w).1.db
decided-HasParent rev id reviewer now_utc kind w now e own q up =
    let u = decide-Untouched id reviewer now_utc kind w.db _ now (transact-ok _ w now e) in
    subst (λ rows. Owned rows q rev.page_id) (sym u.same_revisions) (own q up)

pub page_and_namespace-id :
    (page_id : ℕ) (db : Db) (place : Page × Namespace)
    → page_and_namespace page_id db ≡ ok place
    → place.0.id ≡ page_id
unfolding page_and_namespace page_by_id
page_and_namespace-id page_id db place h =
    let (page, h0, h1) = and_then-ok (found (page_by_id db.pages page_id)) _ place h in
    let (namespace, h2, h3) =
      and_then-ok (map_err from_storage (namespace_by_id page.namespace_id db)) _ place h1 in
    sym (ap (λ z. z.0.id) (ok-injective _ _ h3))
    ∙ by_key-key page_key db.pages page_id page (found-ok (page_by_id db.pages page_id) page h0)

module _ (P : Db → Type 0) (respects : (db out : Db) → Untouched db out → P db → P out) where
  provisioned-Keeps :
      (uid : ℕ) (r : Result StorageError Db) (w : World)
      → P w.db
      → ((out : Db) → r ≡ ok out → P out)
      → P (provisioned uid r w).1.db
  provisioned-Keeps uid (ok db) w wf k = k db refl
  provisioned-Keeps uid (err StorageError.not_found) w wf k = wf
  provisioned-Keeps uid (err (StorageError.conflict m)) w wf k = wf
  provisioned-Keeps uid (err StorageError.database) w wf k = wf
  provisioned-Keeps uid (err (StorageError.invalid_input m)) w wf k = wf

  pub promoted_author-Keeps : (uid : ℕ) (author : Option ℕ) → Keeps P (promoted_author uid author)
  unfolding promoted_author ensure_anonymous_user
  promoted_author-Keeps uid (some id) w wf = pure-Keeps P id w wf
  promoted_author-Keeps uid none w wf =
      if-either (λ (r : Result ApiError ℕ × World). P r.1.db) (user_exists w.db.users uid)
        (ok uid, w) (provisioned uid (create_user (anonymous_user uid) w.db) w) wf
        (provisioned-Keeps uid (create_user (anonymous_user uid) w.db) w wf
          (λ out e. respects w.db out (create_user-Untouched (anonymous_user uid) w.db out e) wf))

  decide-Keeps :
      (id reviewer now_utc : ℕ) (kind : DecisionKind)
      → Keeps P (transact (decide id reviewer now_utc kind))
  decide-Keeps id reviewer now_utc kind =
      transact-Keeps P _
        (λ db out a e wf. respects db out (decide-Untouched id reviewer now_utc kind db out a e) wf)

  notify_author-Keeps :
      (author : Option ℕ) (message : ℕ → Notification) → Keeps P (notify_author author message)
  unfolding notify_author
  notify_author-Keeps none message = pure-Keeps P tt
  notify_author-Keeps (some a) message =
      attempt-Keeps P _
        (write-Keeps P _ (λ db out e wf. respects db out (notify-Untouched _ db out e) wf))

  pub promote_rest-Keeps :
      (env : Env) (actor : Editor) (row : PendingRevision) (place : Page × Namespace)
      (now : PendingRevision)
      → Keeps P (promote_rest env actor row place now)
  unfolding promote_rest
  promote_rest-Keeps env actor row (page, namespace) now =
      bind-Keeps P _ _ (update_page_links-Keeps P respects _ _ _ _)
        (λ linked. bind-Keeps P _ _ (notify_author-Keeps _ _) (λ told. pure-Keeps P now))

module _ (P : Db → Type 0) (kept : Kept P) where
  promote-Keeps :
      (env : Env) (actor : Editor) (row : PendingRevision) (author : ℕ) (place : Page × Namespace)
      (now : PendingRevision) (w : World)
      → HasParent (promoted_revision env row place.0 author) w.db
      → P w.db
      → P (promote env actor row author place now w).1.db
  unfolding promote
  promote-Keeps env actor row author place now w own wf =
      then-Keeps P _ _ w (kept.commits (commit_revision _ _) _ w refl own wf)
        (λ committed. promote_rest-Keeps P kept.respects env actor row place now)

  approved-Keeps :
      (env : Env) (actor : Editor) (id : ℕ) (row : PendingRevision) (author : ℕ)
      → Keeps P (
          query (page_and_namespace row.page_id) >>= λ place.
          transact (decide id actor.user_id env.now_utc DecisionKind.approve)
          >>= promote env actor row author place)
  unfolding query
  approved-Keeps env actor id row author w wf =
      bind-runs P (query (page_and_namespace row.page_id)) _ w wf (λ place e.
        bind-runs P (transact (decide id actor.user_id env.now_utc DecisionKind.approve)) _ w
          (decide-Keeps P kept.respects id actor.user_id env.now_utc DecisionKind.approve w wf)
          (λ now e1.
            promote-Keeps env actor row author place now _
              (decided-HasParent (promoted_revision env row place.0 author) id actor.user_id
                env.now_utc DecisionKind.approve w now e1
                (HasParent-head w.db place.0 (promoted_revision env row place.0 author)
                  (kept.well_formed w.db wf) (page_and_namespace-ok row.page_id w.db place e) refl
                  refl))
              (decide-Keeps P kept.respects id actor.user_id env.now_utc DecisionKind.approve w
                wf)))

  pub approve_pending-Keeps :
      (env : Env) (anonymous : ℕ) (actor : Editor) (id : ℕ)
      → Keeps P (approve_pending env anonymous actor id)
  unfolding approve_pending
  approve_pending-Keeps env anonymous actor id = bind-Keeps P _ _ (query-Keeps P _) (λ may.
      bind-Keeps P _ _ (query-Keeps P _) (λ row.
        bind-Keeps P _ _ (promoted_author-Keeps P kept.respects anonymous row.author_id)
          (λ author. approved-Keeps env actor id row author)))

  pub reject_pending-Keeps :
      (env : Env) (actor : Editor) (id : ℕ) (reason : Text)
      → Keeps P (reject_pending env actor id reason)
  unfolding reject_pending record_rejection
  reject_pending-Keeps env actor id reason = bind-Keeps P _ _ (query-Keeps P _) (λ may.
      bind-Keeps P _ _ (query-Keeps P _) (λ why. bind-Keeps P _ _ (query-Keeps P _) (λ row.
        bind-Keeps P _ _ (decide-Keeps P kept.respects id actor.user_id env.now_utc _) (λ now.
          bind-Keeps P _ _ (query-Keeps P _) (λ place.
            bind-Keeps P _ _
              (write-Keeps P _ (λ db out e wf.
                kept.respects db out
                  (subst (Untouched db) (ok-injective _ _ e) (insert_audit-Untouched _ db)) wf))
              (λ logged.
                bind-Keeps P _ _ (notify_author-Keeps P kept.respects _ _)
                  (λ told. pure-Keeps P now)))))))
