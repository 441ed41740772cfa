-- ===== src/Api/Auth/Logout.antt =====
-- The end of a session: crates/api/src/auth/routes.rs's logout behind the extractor of extractors.rs.
use thewiki.Prelude.{◌≡◌, refl, ap, sym, ◌∙◌, ℕ, some, none, inl, inr}
use thewiki.Prelude.Result.{ok, err, Result-cases}
use thewiki.Prelude.Tests.{Bool-cases, Option-cases}
use thewiki.Storage.Tables.{is_there}
use thewiki.Storage.Tables.Lookup.{by_key-key}
use thewiki.Storage.Accounts.{
  Accounts, Session, session_by_id, get_session, delete_session, insert_audit, user_by_id,
}
use thewiki.Api.Auth.{AuthError, expired_session, AuthSession, authenticate, logout, logout_route}
use thewiki.Api.Auth.Lifecycle.{session_by_id-filter, authenticate-gone}
use native.Mathlib.Omega.{arith}

get_session-found :
    (id now : ℕ) (session : Session) (db : Accounts)
    → get_session id now db ≡ ok session
    → session_by_id db.sessions id ≡ some session
unfolding get_session
get_session-found id now session db h = elim (Option-cases (session_by_id db.sessions id)) [
  | inl e ↦ ground arith
  | inr (found, e) ↦ ground arith
]

-- The session that a request is let in with is the one of its cookie.
authenticate-session_id :
    (id now : ℕ) (auth : AuthSession) (db : Accounts)
    → (authenticate (some id) now db).0 ≡ ok auth
    → auth.session_id ≡ id
unfolding authenticate session_by_id
authenticate-session_id id now auth db h = elim (Result-cases (get_session id now db)) [
  | inr (e, f) ↦ ground arith
  | inl (session, f) ↦
      let same =
        by_key-key (λ s. s.id) db.sessions id session (get_session-found id now session db f) in
      elim (Option-cases (user_by_id db.users session.user_id)) [
        | inl e ↦ ground arith
        | inr (user, e) ↦ ground (arith, same)
      ]
]

logout-gone :
    (auth : AuthSession) (db : Accounts)
    → (logout auth db).0 ≡ ok tt
    → session_by_id (logout auth db).1.sessions auth.session_id ≡ none
unfolding logout delete_session insert_audit
logout-gone auth db h = elim (Bool-cases (is_there (session_by_id db.sessions auth.session_id))) [
  | inl e ↦ rw (logout, e) (session_by_id-filter auth.session_id db.sessions)
  | inr e ↦ ground arith
]

logout_route-in :
    (id now : ℕ) (auth : AuthSession) (db : Accounts)
    → (authenticate (some id) now db).0 ≡ ok auth
    → logout_route (some id) now db ≡ logout auth (authenticate (some id) now db).1
logout_route-in id now auth db f = rw (logout_route, f) refl

logout_route-out :
    (id now : ℕ) (e : AuthError) (db : Accounts)
    → (authenticate (some id) now db).0 ≡ err e
    → (logout_route (some id) now db).0 ≡ err e
logout_route-out id now e db f = rw (logout_route, f) refl

-- After a logout that is answered with success, no request is let in with the session's cookie.
pub logout_route-authenticate :
    (id now n : ℕ) (db : Accounts)
    → (logout_route (some id) now db).0 ≡ ok tt
    → (authenticate (some id) n (logout_route (some id) now db).1).0 ≡ err expired_session
logout_route-authenticate id now n db h = elim (Result-cases (authenticate (some id) now db).0) [
  | inr (e, f) ↦ ground (arith, logout_route-out id now e db f)
  | inl (auth, f) ↦
      let same = authenticate-session_id id now auth db f in
      let route = logout_route-in id now auth db f in
      authenticate-gone id n (logout_route (some id) now db).1 (
        ap (λ z. session_by_id z.1.sessions id) route
        ∙ ap (λ z. session_by_id (logout auth (authenticate (some id) now db).1).1.sessions z)
            (sym same)
        ∙ logout-gone auth (authenticate (some id) now db).1 (ap (λ z. z.0) (sym route) ∙ h))
]
