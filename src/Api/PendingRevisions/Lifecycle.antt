-- ===== src/Api/PendingRevisions/Lifecycle.antt =====
-- Who may decide a queued edit.
use thewiki.Prelude.{◌≡◌, ap, ◌∙◌, ℕ, false, some, ◌⊎◌, inl, inr, arith, ◌++◌}
use thewiki.Prelude.Result.{Result, ok, err, Result-cases, and_then}
use thewiki.Prelude.Tests.{==_refl, Bool-cases}
use thewiki.Prelude.Text.{Text, codes}
use thewiki.Core.PendingRevision.{PendingRevision, is_pending}
use thewiki.Storage.Schema.{Db}
use thewiki.Storage.Pending.{pending_by_id}
use thewiki.Api.Editor.{Editor}
use thewiki.Api.Exec.{ApiError, conflict, forbidden, World, Exec, ◌>>=◌, query, resume}
use thewiki.Api.Pages.{Env}
use thewiki.Api.PendingRevisions.{
  debug_name, found, open_to, reviewable, approve_pending, reject_pending,
}

-- A read that fails ends the request with nothing changed.
query-err :
    {A B : Type 0} (f : Db → Result ApiError A) (k : A → Exec B) (w : World) (e : ApiError)
    → f w.db ≡ err e
    → (query f >>= k) w ≡ (err e, w)
unfolding ◌>>=◌ query
query-err f k w e h = ap (λ r. resume r w k) h

query-ok :
    {A B : Type 0} (f : Db → Result ApiError A) (k : A → Exec B) (w : World) (a : A)
    → f w.db ≡ ok a
    → (query f >>= k) w ≡ k a w
unfolding ◌>>=◌ query
query-ok f k w a h = ap (λ r. resume r w k) h

-- The request fails and changes nothing.
abbrev pub Refused : {A : Type 0} → Exec A → World → Type 0
Refused m w = (e : ApiError) × (m w ≡ (err e, w))

query-Refused :
    {A B : Type 0} (f : Db → Result ApiError A) (k : A → Exec B) (w : World)
    → ((a : A) → f w.db ≡ ok a → Refused (k a) w)
    → Refused (query f >>= k) w
query-Refused f k w h = elim (Result-cases (f w.db)) [
  | inl p ↦ let (e, q) = h p.0 p.1 in (e, query-ok f k w p.0 p.1 ∙ q)
  | inr p ↦ (p.0, query-err f k w p.0 p.1)
]

-- A row that is decided, or that the reviewer wrote, is not open to the reviewer.
closed :
    (actor : Editor) (row : PendingRevision)
    → (is_pending row.status ≡ false) ⊎ (row.author_id ≡ some actor.user_id)
    → (e : ApiError) × (open_to actor row ≡ err e)
unfolding open_to
closed actor row h = elim (Bool-cases (is_pending row.status)) [
  | inr e ↦
      (conflict (codes "pending revision already " ++ debug_name row.status), ground (arith, e))
  | inl e ↦ elim h [
    | inl shut ↦ (forbidden, ground (arith, e, shut))
    | inr own ↦ (forbidden, ground (arith, e, own, ==_refl actor.user_id))
  ]
]

reviewable-closed :
    (actor : Editor) (id : ℕ) (row : PendingRevision) (db : Db)
    → pending_by_id db.pending_revisions id ≡ some row
    → (is_pending row.status ≡ false) ⊎ (row.author_id ≡ some actor.user_id)
    → (e : ApiError) × (reviewable actor id db ≡ err e)
unfolding reviewable
reviewable-closed actor id row db there h =
    let (e, q) = closed actor row h in (e, ap (λ o. and_then (found o) (open_to actor)) there ∙ q)

Refused-read :
    {A B : Type 0} (f : Db → Result ApiError A) (k : A → Exec B) (w : World)
    → (e : ApiError) × (f w.db ≡ err e)
    → Refused (query f >>= k) w
Refused-read f k w (e, q) = (e, query-err f k w e q)

-- Nobody approves or rejects an own edit, nor one that is decided: the request changes nothing.
pub review-Refused :
    (env : Env) (anonymous : ℕ) (actor : Editor) (id : ℕ) (reason : Text) (row : PendingRevision)
    (w : World)
    → pending_by_id w.db.pending_revisions id ≡ some row
    → (is_pending row.status ≡ false) ⊎ (row.author_id ≡ some actor.user_id)
    → Refused (approve_pending env anonymous actor id) w
      × Refused (reject_pending env actor id reason) w
unfolding approve_pending reject_pending
review-Refused env anonymous actor id reason row w there h =
    let closed_to = reviewable-closed actor id row w.db there h in
    (
      query-Refused _ _ w (λ may e. Refused-read _ _ w closed_to),
      query-Refused _ _ w (λ may e. query-Refused _ _ w (λ why e1. Refused-read _ _ w closed_to)),
    )
