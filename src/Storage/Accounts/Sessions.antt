-- ===== src/Storage/Accounts/Sessions.antt =====
-- The sweep of crates/storage/src/sqlite/session.rs beside its lookup.
use thewiki.Prelude.{◌≡◌, refl, ℕ, ◌≤◌, Bool, not, inl, inr}
use thewiki.Prelude.Tests.{Bool-cases, Option-cases}
use thewiki.Storage.Tables.{filter}
use thewiki.Storage.Tables.Lookup.{
  Distinct, by_key, by_key-filter, by_key-filter-some, by_key-filter-none,
}
use thewiki.Storage.Accounts.{
  Accounts, Session, session_by_id, is_expired_at, get_session, prune_expired,
}
use native.Mathlib.Omega.{arith}

abbrev pub session_key : Session → ℕ
session_key session = session.id

-- If no id stands twice, the sweep at one time changes no answer to a lookup at that time or later.
prune_expired-get_session :
    (id now later : ℕ) (db : Accounts)
    → Distinct session_key db.sessions
    → now ≤ later
    → get_session id later (prune_expired now db) ≡ get_session id later db
unfolding get_session prune_expired session_by_id
prune_expired-get_session id now later db distinct after =
    let live : Session → Bool = λ s. not (is_expired_at s now) in
    elim (Option-cases (by_key session_key db.sessions id)) [
      | inl e ↦ rw (get_session, e, by_key-filter-none session_key live db.sessions id e) refl
      | inr (s, e) ↦ elim (Bool-cases (is_expired_at s now)) [
        | inr r ↦
            rw
              (
                get_session,
                e,
                by_key-filter-some session_key live db.sessions id s e (ground arith),
              )
              refl
        | inl r ↦ elim (Option-cases (by_key session_key (filter live db.sessions) id)) [
          | inl gone ↦ rw (get_session, e, gone) (ground arith)
          | inr (x, f) ↦
              ground (arith, by_key-filter session_key live db.sessions id x distinct f, e, r)
        ]
      ]
    ]
