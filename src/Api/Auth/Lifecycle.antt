-- ===== src/Api/Auth/Lifecycle.antt =====
-- A session from the login to its end, through crates/api/src/auth.
use thewiki.Prelude.{
  ◌≡◌, refl, ap, ap₂, sym, ◌∙◌, ℕ, ◌+◌, ◌<◌, ◌≤◌, some, none, Bool, true, false, not, ◌||◌, List,
  [], ◌∷◌, inl, inr,
}
use thewiki.Prelude.Result.{Result, ok, err, Result-cases, otherwise-ok, ok-injective}
use thewiki.Prelude.Tests.{◌==◌, ==_refl, ltb, ltb→lt, not_ltb→le, Bool-cases, Option-cases}
use thewiki.Storage.Schema.{StorageError, database}
use thewiki.Storage.Tables.{filter, is_there}
use thewiki.Storage.Tables.Lookup.{by_key-update, by_key-key, by_key-here}
use thewiki.Storage.Accounts.{
  Accounts, Account, Session, user_by_id, session_by_id, new_session, create_session, get_session,
  touch_session, update_user, overwrite_user, permissions_of, list_for_user, insert_audit,
}
use thewiki.Api.Auth.{
  AuthError, expired_session, storage, AuthState, AuthSession, authenticate, login, LoginRequest,
  LoggedIn, issue, welcome, check_credentials, logged_in_at, or_unchanged,
}
use native.Mathlib.Omega.{arith}

get_session-live :
    (id now : ℕ) (session : Session) (db : Accounts)
    → session_by_id db.sessions id ≡ some session
    → now < session.expires_at
    → get_session id now db ≡ ok session
unfolding get_session
get_session-live id now session db h live = rw (get_session, h) (ground arith)

get_session-over :
    (id now : ℕ) (session : Session) (db : Accounts)
    → session_by_id db.sessions id ≡ some session
    → session.expires_at ≤ now
    → get_session id now db ≡ err StorageError.not_found
unfolding get_session
get_session-over id now session db h over = rw (get_session, h) (ground arith)

pub permissions_of-touched :
    (user_id id now : ℕ) (db : Accounts)
    → permissions_of user_id (or_unchanged (touch_session id now db) db) ≡ permissions_of user_id db
unfolding touch_session permissions_of list_for_user
permissions_of-touched user_id id now db = ground arith

abbrev pub verdict : Account → ℕ → ℕ → Bool → Result AuthError AuthSession
verdict user id permissions true =
    ok (record { user = user; session_id = id; permissions = permissions })
verdict user id permissions false = err expired_session

-- What the extractor says depends on the session's row, the user's row and the roles alone.
authenticate-verdict :
    (id now : ℕ) (session : Session) (user : Account) (db : Accounts)
    → session_by_id db.sessions id ≡ some session
    → session.id ≡ id
    → user_by_id db.users session.user_id ≡ some user
    → (authenticate (some id) now db).0
      ≡ verdict user id (permissions_of user.id db) (ltb now session.expires_at)
unfolding authenticate
authenticate-verdict id now session user db h same u =
    elim (Bool-cases (ltb now session.expires_at)) [
      | inl e ↦
          rw
            (
              authenticate,
              get_session-live id now session db h (ltb→lt now session.expires_at e),
              u,
              e,
            )
            (ap₂ (λ i p. ok (record { user = user; session_id = i; permissions = p })) same
              (permissions_of-touched user.id session.id now db))
      | inr e ↦
          rw
            (
              authenticate,
              get_session-over id now session db h (not_ltb→le now session.expires_at e),
              e,
            )
            refl
    ]

pub authenticate-gone :
    (id now : ℕ) (db : Accounts)
    → session_by_id db.sessions id ≡ none
    → (authenticate (some id) now db).0 ≡ err expired_session
unfolding authenticate get_session
authenticate-gone id now db h = rw (authenticate, get_session, h) refl

pub session_by_id-filter :
    (id : ℕ) (rows : List Session) → session_by_id (filter (λ s. not (s.id == id)) rows) id ≡ none
unfolding session_by_id
session_by_id-filter id [] = refl
session_by_id-filter id (s ∷ rows) = ground (arith, session_by_id-filter id rows)

abbrev pub session_of : AuthState → Account → Session
session_of state user =
    new_session state.fresh_session_id state.now user.id state.session_ttl none none

abbrev pub with_session : Session → Accounts → Accounts
with_session session db = record db { sessions = session ∷ db.sessions }

pub login-issue :
    (state : AuthState) (req : LoginRequest) (user : Account) (db : Accounts)
    → check_credentials state req db ≡ ok user
    → login state req db ≡ issue state user db
unfolding login
login-issue state req user db h = rw (login, h) refl

pub issue-welcome :
    (state : AuthState) (user : Account) (stored db : Accounts)
    → create_session (session_of state user) db ≡ ok stored
    → issue state user db ≡ welcome state user (session_of state user) stored
issue-welcome state user stored db h = rw (issue, h) refl

login-refused :
    (state : AuthState) (req : LoginRequest) (e : AuthError) (db : Accounts)
    → check_credentials state req db ≡ err e
    → login state req db ≡ (err e, db)
unfolding login
login-refused state req e db h = rw (login, h) refl

issue-refused :
    (state : AuthState) (user : Account) (e : StorageError) (db : Accounts)
    → create_session (session_of state user) db ≡ err e
    → issue state user db ≡ (err (storage e), db)
issue-refused state user e db h = rw (issue, h) refl

create_session-ok :
    (session : Session) (stored db : Accounts)
    → create_session session db ≡ ok stored
    → (is_there (user_by_id db.users session.user_id) ≡ true) × (stored ≡ with_session session db)
unfolding create_session
create_session-ok session stored db h =
    let (free, p) =
      otherwise-ok
        (is_there (session_by_id db.sessions session.id)
          || not (is_there (user_by_id db.users session.user_id)))
        database (with_session session db) stored h in
    (ground (arith, free), p)

-- What a login that succeeds has done.
login-ok :
    (state : AuthState) (req : LoginRequest) (r : LoggedIn) (db : Accounts)
    → (login state req db).0 ≡ ok r
    → (user : Account) × (check_credentials state req db ≡ ok user)
      × (is_there (user_by_id db.users user.id) ≡ true)
      × (login state req db
          ≡ welcome state user (session_of state user) (with_session (session_of state user) db))
login-ok state req r db h = elim (Result-cases (check_credentials state req db)) [
  | inr (e, f) ↦ ground (arith, ap (λ z. z.0) (login-refused state req e db f), h)
  | inl (user, f) ↦ elim (Result-cases (create_session (session_of state user) db)) [
    | inr (e, g) ↦ ground (
      arith,
      ap (λ z. z.0) (login-issue state req user db f ∙ issue-refused state user e db g),
      h,
    )
    | inl (stored, g) ↦
        let (there, p) = create_session-ok (session_of state user) stored db g in
        (
          user,
          f,
          there,
          login-issue state req user db f
              ∙ issue-welcome state user stored db g
              ∙ ap (welcome state user (session_of state user)) p,
        )
  ]
]

-- The user's row after the time of the login is written.
user_by_id-update :
    (now : ℕ) (user : Account) (db : Accounts)
    → is_there (user_by_id db.users user.id) ≡ true
    → (row : Account) × (user_by_id
          (or_unchanged (update_user (logged_in_at now user) db) db).users
          user.id
        ≡ some row)
      × (row.id ≡ user.id)
      × (row.last_login_at ≡ some now)
unfolding update_user user_by_id
user_by_id-update now user db there = elim (Option-cases (user_by_id db.users user.id)) [
  | inl e ↦ ground arith
  | inr (old, e) ↦ (
    overwrite_user (logged_in_at now user) old,
    rw
        (
          there,
          by_key-update (λ u. u.id) (overwrite_user (logged_in_at now user)) user.id (λ u. refl)
              db.users user.id,
          ==_refl user.id,
          e,
        )
        refl,
    by_key-key (λ u. u.id) db.users user.id old e,
    refl,
  )
]

update_user-sessions :
    (user : Account) (db : Accounts)
    → (or_unchanged (update_user user db) db).sessions ≡ db.sessions
unfolding update_user
update_user-sessions user db = ground arith

-- The tables that a login leaves, and the user's row and the new session's in them.
welcome-rows :
    (state : AuthState) (user : Account) (db : Accounts)
    → is_there (user_by_id db.users user.id) ≡ true
    → let after =
        (welcome state user (session_of state user) (with_session (session_of state user) db)).1 in
      (session_by_id after.sessions state.fresh_session_id ≡ some (session_of state user))
      × ((row : Account) × (user_by_id after.users user.id ≡ some row)
          × (row.id ≡ user.id)
          × (row.last_login_at ≡ some state.now))
unfolding insert_audit session_by_id
welcome-rows state user db there =
    let session = session_of state user in
    (
      ap (λ rows. session_by_id rows session.id)
            (update_user-sessions (logged_in_at state.now user) (with_session session db))
          ∙ by_key-here (λ s. s.id) session db.sessions session.id (==_refl session.id),
      user_by_id-update state.now user (with_session session db) there,
    )

abbrev pub answered_with : AuthState → Account → Accounts → LoggedIn
answered_with state user db =
    let session = session_of state user in
    let logged = (welcome state user session (with_session session db)).1 in
    record {
      session = session;
      user = user;
      roles = list_for_user user.id logged;
      permissions = permissions_of user.id logged;
    }

-- A login that succeeds stores a session with which every request is let in as the user who logged in,
-- with the permissions that the login answered, until the session's time is over, and with which no
-- request is let in from then on; it writes the time of the login into the user's row.
pub login-authenticate :
    (state : AuthState) (req : LoginRequest) (r : LoggedIn) (db : Accounts)
    → (login state req db).0 ≡ ok r
    → (row : Account) × (row.id ≡ r.user.id)
      × (row.last_login_at ≡ some state.now)
      × ((n : ℕ)
          → (authenticate (some state.fresh_session_id) n (login state req db).1).0
            ≡ verdict row state.fresh_session_id r.permissions
                (ltb n (state.now + state.session_ttl)))
login-authenticate state req r db h =
    let (user, credentials, there, p) = login-ok state req r db h in
    let (found, (row, u, same, bumped)) = welcome-rows state user db there in
    let session = session_of state user in
    let answered = ok-injective r (answered_with state user db) (sym h ∙ ap (λ z. z.0) p) in
    let after = (login state req db).1 in
    let left = ap (λ z. z.1) p in
    (
      row,
      same ∙ ap (λ z. z.user.id) (sym answered),
      bumped,
      λ n.
          authenticate-verdict state.fresh_session_id n session row after
            (ap (λ z. session_by_id z.sessions state.fresh_session_id) left ∙ found) refl
            (ap (λ z. user_by_id z.users user.id) left ∙ u)
          ∙ ap (λ z. verdict row state.fresh_session_id z (ltb n session.expires_at))
              (ap₂ permissions_of same left ∙ ap (λ z. z.permissions) (sym answered)),
    )
