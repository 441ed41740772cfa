-- ===== src/Api/Auth.antt =====
-- crates/api/src/auth: the handlers of routes.rs, the extractor of extractors.rs and the double-submit
-- check of csrf.rs. The Argon2 hasher, the captcha provider, the clock and the fresh ids are parameters.
-- A cookie holds the session's id itself. A text that an error carries keeps its parts.
pub mod Register
pub mod Csrf
pub mod Lifecycle
pub mod Logout
pub mod Credentials
pub mod Newcomer
pub mod Tests
use thewiki.Prelude.{ℕ, Option, some, none, Bool, true, false, not, ◌&&◌, ◌||◌, List, [], ◌∷◌, map}
use thewiki.Prelude.Result.{Result, ok, err, and_then, map_err}
use thewiki.Prelude.Tests.{◌==◌, if◌then◌else◌}
use thewiki.Prelude.Text.{Text, codes, text_eq, len, trim}
use thewiki.Core.Validation.{ValidationError}
use thewiki.Core.Username.{new}
use thewiki.Core.EmailAddress.{new as new_email}
use thewiki.Storage.Schema.{
  StorageError, not_found, conflict, database, invalid_input, AuditEntry, uuid,
}
use thewiki.Storage.Accounts.{
  Accounts, Account, Session, Role, user_by_id, user_by_name, new_session, create_session,
  get_session, touch_session, delete_session, update_user, create_user, permissions_of,
  list_for_user, insert_audit,
}

pub data AuthError : Type 0 where
  invalid_credentials : AuthError
  missing_session : AuthError
  expired_session : AuthError
  csrf_failed : AuthError
  hash_failure : AuthError
  storage : StorageError → AuthError
  captcha_failed : Text → AuthError
  captcha_upstream : AuthError
  registration_closed : AuthError
  username_taken : AuthError
  invalid_value : (field : Text) → ValidationError → AuthError
  empty_password : AuthError

pub data RegistrationPolicy : Type 0 where
  open_to_all : RegistrationPolicy
  invite : RegistrationPolicy
  closed : RegistrationPolicy

-- `AuthState`, and what a request takes from the system.
pub record AuthState : Type 0 where
  pub hash : Text → Result AuthError Text
  pub verify : Text → Text → Result AuthError Bool
  pub session_ttl : ℕ
  pub registration : RegistrationPolicy
  pub apply_to_registration : Bool
  pub captcha : Text → Result AuthError (Unit {0})
  pub to_lowercase : Text → Text
  pub now : ℕ
  pub fresh_session_id : ℕ
  pub fresh_user_id : ℕ

pub record LoginRequest : Type 0 where
  pub username : Text
  pub password : Text

-- The two cookies carry the session, whose expiry is theirs.
pub record LoggedIn : Type 0 where
  pub session : Session
  pub user : Account
  pub roles : List Role
  pub permissions : ℕ

abbrev pub event : Account → Text → Text → ℕ → AuditEntry
event user action key id = record {
  actor_id = user.id;
  actor_username = user.username;
  action = action;
  target_kind = codes "user";
  target_id = user.id;
  target_label = some user.username;
  metadata = (key, uuid id) ∷ [];
}

abbrev pub lookup_user : Text → Accounts → Option Account
lookup_user username db = elim (new username) [
  | err e ↦ none
  | ok name ↦ user_by_name db.users name
]

abbrev pub hash_of : Option Account → Option Text
hash_of none = none
hash_of (some user) = user.password_hash

abbrev pub unwrap_or_dummy : Option Text → Text → Text
unwrap_or_dummy none dummy = dummy
unwrap_or_dummy (some hash) dummy = hash

-- The three tests after the comparison.
abbrev pub decide : Option Account → Bool → Result AuthError Account
decide none matches = err invalid_credentials
decide (some user) false = err invalid_credentials
decide (some user) true = elim user.password_hash [
  | none ↦ err invalid_credentials
  | some hash ↦ ok user
]

-- A comparison is made on every path, with the hash of the empty password if there is no other.
unfoldable pub check_credentials : AuthState → LoginRequest → Accounts → Result AuthError Account
check_credentials state req db = and_then (state.hash []) (λ dummy.
    let user = lookup_user req.username db in
    and_then (state.verify req.password (unwrap_or_dummy (hash_of user) dummy)) (decide user))

abbrev pub or_unchanged : Result StorageError Accounts → Accounts → Accounts
or_unchanged (ok after) db = after
or_unchanged (err e) db = db

abbrev pub logged_in_at : ℕ → Account → Account
logged_in_at now user = record user { last_login_at = some now }

-- After the session is stored: the time of the login, the audit row, the roles.
abbrev pub welcome : AuthState → Account → Session → Accounts → Result AuthError LoggedIn × Accounts
welcome state user session db =
    let bumped = or_unchanged (update_user (logged_in_at state.now user) db) db in
    let logged =
      insert_audit (event user (codes "auth.login") (codes "session_id") session.id) bumped in
    (
      ok (record {
        session = session;
        user = user;
        roles = list_for_user user.id logged;
        permissions = permissions_of user.id logged;
      }),
      logged,
    )

abbrev pub issue : AuthState → Account → Accounts → Result AuthError LoggedIn × Accounts
issue state user db =
    let session =
      new_session state.fresh_session_id state.now user.id state.session_ttl none none in
    elim (create_session session db) [
      | err e ↦ (err (storage e), db)
      | ok stored ↦ welcome state user session stored
    ]

unfoldable pub login : AuthState → LoginRequest → Accounts → Result AuthError LoggedIn × Accounts
login state req db = elim (check_credentials state req db) [
  | err e ↦ (err e, db)
  | ok user ↦ issue state user db
]

pub record AuthSession : Type 0 where
  pub user : Account
  pub session_id : ℕ
  pub permissions : ℕ

abbrev pub resolve : ℕ → Account → Session → Accounts → Result AuthError AuthSession × Accounts
resolve now user session db =
    let touched = or_unchanged (touch_session session.id now db) db in
    (
      ok (record {
        user = user;
        session_id = session.id;
        permissions = permissions_of user.id touched;
      }),
      touched,
    )

abbrev pub missing_as_expired : StorageError → AuthError
missing_as_expired not_found = expired_session
missing_as_expired e = storage e

-- `AuthSession::from_request_parts`, with the session's id of the cookie if it holds one.
unfoldable pub authenticate : Option ℕ → ℕ → Accounts → Result AuthError AuthSession × Accounts
authenticate none now db = (err missing_session, db)
authenticate (some id) now db = elim (get_session id now db) [
  | err e ↦ (err (missing_as_expired e), db)
  | ok session ↦ elim (user_by_id db.users session.user_id) [
    | none ↦ (err expired_session, db)
    | some user ↦ resolve now user session db
  ]
]

abbrev pub cleared : AuthSession → Accounts → Result AuthError (Unit {0}) × Accounts
cleared auth db = (
  ok tt,
  insert_audit (event auth.user (codes "auth.logout") (codes "session_id") auth.session_id) db,
)

-- A session that is gone already is no error.
unfoldable pub logout : AuthSession → Accounts → Result AuthError (Unit {0}) × Accounts
logout auth db = elim (delete_session auth.session_id db) [
  | ok after ↦ cleared auth after
  | err not_found ↦ cleared auth db
  | err e ↦ (err (storage e), db)
]

-- `/logout` with the extractor before it.
abbrev pub logout_route : Option ℕ → ℕ → Accounts → Result AuthError (Unit {0}) × Accounts
logout_route cookie now db =
    let found = authenticate cookie now db in
    elim found.0 [ err e ↦ (err e, found.1) | ok auth ↦ logout auth found.1 ]
