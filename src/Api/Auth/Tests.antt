-- ===== src/Api/Auth/Tests.antt =====
-- Runs of the authentication of crates/api/src/auth.
use thewiki.Prelude.{◌≡◌, refl, ℕ, some, none, false, [], ◌∷◌}
use thewiki.Prelude.Result.{ok, err}
use thewiki.Prelude.Tests.{ltb}
use thewiki.Prelude.Text.{
  Text, codes, text_eq, trim, trim_start, trim_end, drop_while, is_whitespace,
}
use thewiki.Core.Validation.{validate, is_handle_char}
use thewiki.Core.Username.{new}
use thewiki.Core.Permissions.{bit_or, union}
use thewiki.Storage.Accounts.{
  Accounts, Account, Role, user_by_id, user_by_name, session_by_id, create_session, get_session,
  touch_session, delete_session, update_user, create_user, permissions_of, list_for_user,
  insert_audit, holds,
}
use thewiki.Api.Auth.{
  invalid_credentials, expired_session, csrf_failed, registration_closed, AuthState, LoginRequest,
  LoggedIn, open_to_all, closed, check_credentials, login, authenticate, logout, logout_route,
}
use thewiki.Api.Auth.Register.{RegisterRequest, register}
use thewiki.Api.Auth.Csrf.{csrf_layer}
use thewiki.Api.Auth.Lifecycle.{verdict, login-authenticate}
use thewiki.Api.Auth.Logout.{logout_route-authenticate}

-- A hasher that stands a mark before the password.
abbrev state : AuthState
state = record {
  hash = λ password. ok (42 ∷ password);
  verify = λ password hash. ok (text_eq hash (42 ∷ password));
  session_ttl = 100;
  registration = open_to_all;
  apply_to_registration = false;
  captcha = λ token. ok tt;
  to_lowercase = λ text. text;
  now = 1000;
  fresh_session_id = 7;
  fresh_user_id = 2;
}

abbrev ada : Account
ada = record {
  id = 1;
  username = codes "ada";
  email = none;
  display_name = none;
  password_hash = some (42 ∷ codes "engine");
  created_at = 900;
  last_login_at = none;
}

-- A user whose identity comes from elsewhere.
abbrev guest : Account
guest = record ada { id = 3; username = codes "guest"; password_hash = none }

abbrev editor : Role
editor = record { id = 5; name = codes "editor"; display_name = codes "Editor"; permissions = 3 }

abbrev tables : Accounts
tables = record {
  users = ada ∷ guest ∷ [];
  sessions = [];
  roles = editor ∷ [];
  user_roles = (1, 5) ∷ [];
  audit_log = [];
}

abbrev request : Text → Text → LoginRequest
request username password = record { username = username; password = password }

authentication : Unit {0}
unfolding text_eq trim trim_start trim_end drop_while is_whitespace validate is_handle_char new
    bit_or union user_by_id user_by_name session_by_id create_session get_session touch_session
    delete_session update_user create_user permissions_of list_for_user insert_audit holds
    check_credentials login authenticate logout register csrf_layer
authentication = tt

wrong_password :
    (login state (request (codes "ada") (codes "loom")) tables).0 ≡ err invalid_credentials
unfolding authentication
wrong_password = refl

-- The hash of the empty password lets nobody in.
no_hash : (login state (request (codes "guest") []) tables).0 ≡ err invalid_credentials
unfolding authentication
no_hash = refl

csrf_needed :
    csrf_layer false
      (record { session = some (codes "s"); csrf = some (codes "a") })
      (some (codes "b"))
    ≡ err csrf_failed
unfolding authentication
csrf_needed = refl

no_registration :
    (register
      (record state { registration = closed })
      (record {
        username = codes "eve";
        password = codes "p";
        email = none;
        display_name = none;
        captcha_response = none;
      })
      tables)
    ≡ (err registration_closed, tables)
unfolding authentication
no_registration = refl

abbrev answer : LoggedIn
answer = record {
  session = record {
    id = 7;
    user_id = 1;
    created_at = 1000;
    expires_at = 1100;
    last_seen_at = 1000;
    user_agent = none;
    ip_address = none;
  };
  user = ada;
  roles = editor ∷ [];
  permissions = 3;
}

ada_in : (login state (request (codes "ada") (codes "engine")) tables).0 ≡ ok answer
unfolding authentication
ada_in = refl

login-authenticate_example :
    (row : Account) × (row.id ≡ 1)
    × (row.last_login_at ≡ some 1000)
    × ((n : ℕ)
        → (authenticate
            (some 7)
            n
            (login state (request (codes "ada") (codes "engine")) tables).1).0
          ≡ verdict row 7 3 (ltb n 1100))
login-authenticate_example =
    login-authenticate state (request (codes "ada") (codes "engine")) answer tables ada_in

abbrev inside : Accounts
inside = record tables { sessions = answer.session ∷ [] }

ada_out : (logout_route (some 7) 1050 inside).0 ≡ ok tt
unfolding authentication
ada_out = refl

logout_route-authenticate_example :
    (authenticate (some 7) 1060 (logout_route (some 7) 1050 inside).1).0 ≡ err expired_session
logout_route-authenticate_example = logout_route-authenticate 7 1050 1060 inside ada_out

abbrev eve : Account
eve = record {
  id = 2;
  username = codes "eve";
  email = none;
  display_name = some (codes "Eve");
  password_hash = some (42 ∷ codes "apple");
  created_at = 1000;
  last_login_at = none;
}

abbrev eve_joins : RegisterRequest
eve_joins = record {
  username = codes "eve";
  password = codes "apple";
  email = none;
  display_name = some (codes "Eve");
  captcha_response = none;
}
