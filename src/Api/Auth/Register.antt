-- ===== src/Api/Auth/Register.antt =====
-- Registration in crates/api/src/auth/routes.rs.
use thewiki.Prelude.{Option, some, none, not, []}
use thewiki.Prelude.Result.{Result, ok, err, and_then, map_err}
use thewiki.Prelude.Tests.{if◌then◌else◌}
use thewiki.Prelude.Text.{Text, codes, text_eq, trim}
use thewiki.Core.Username.{new}
use thewiki.Core.EmailAddress.{new as new_email}
use thewiki.Storage.Schema.{StorageError, conflict}
use thewiki.Storage.Accounts.{Accounts, Account, create_user, insert_audit}
use thewiki.Api.Auth.{
  AuthError, registration_closed, captcha_failed, invalid_value, empty_password, username_taken,
  storage, RegistrationPolicy, open_to_all, invite, closed, AuthState, event,
}

pub record RegisterRequest : Type 0 where
  pub username : Text
  pub password : Text
  pub email : Option Text
  pub display_name : Option Text
  pub captcha_response : Option Text

abbrev pub policy_gate : RegistrationPolicy → Result AuthError (Unit {0})
policy_gate open_to_all = ok tt
policy_gate invite = err registration_closed
policy_gate closed = err registration_closed

-- The trimmed text, if there is any.
abbrev pub given : Option Text → Option Text
given none = none
given (some raw) = let trimmed = trim raw in if text_eq trimmed [] then none else some trimmed

abbrev pub captcha_gate : AuthState → RegisterRequest → Result AuthError (Unit {0})
captcha_gate state req =
    if not state.apply_to_registration then ok tt else elim (given req.captcha_response) [
      | none ↦ err (captcha_failed (codes "missing-input-response"))
      | some token ↦ state.captcha token
    ]

abbrev pub parse_email : AuthState → Option Text → Result AuthError (Option Text)
parse_email state none = ok none
parse_email state (some raw) =
    and_then (map_err (invalid_value (codes "email")) (new_email state.to_lowercase raw))
      (λ address. ok (some address))

-- What stands before the insertion, which changes nothing.
abbrev pub new_account : AuthState → RegisterRequest → Result AuthError Account
new_account state req = and_then (policy_gate state.registration) (λ _.
    and_then (captcha_gate state req) (λ _.
      and_then (map_err (invalid_value (codes "username")) (new req.username)) (λ username.
        if text_eq req.password []
        then err empty_password
        else and_then (parse_email state (given req.email)) (λ email.
          and_then (state.hash req.password) (λ password_hash. ok (record {
            id = state.fresh_user_id;
            username = username;
            email = email;
            display_name = req.display_name;
            password_hash = some password_hash;
            created_at = state.now;
            last_login_at = none;
          }))))))

abbrev pub taken_as_conflict : StorageError → AuthError
taken_as_conflict (conflict message) = username_taken
taken_as_conflict e = storage e

abbrev pub enrol : Account → Accounts → Result AuthError Account × Accounts
enrol user db = elim (create_user user db) [
  | err e ↦ (err (taken_as_conflict e), db)
  | ok created ↦
      (ok user, insert_audit (event user (codes "auth.register") (codes "user_id") user.id) created)
]

unfoldable pub register :
    AuthState → RegisterRequest → Accounts → Result AuthError Account × Accounts
register state req db = elim (new_account state req) [
  | err e ↦ (err e, db)
  | ok user ↦ enrol user db
]
