-- ===== src/Api/Admin/Tests.antt =====
-- Runs of the handlers of crates/api/src/admin.
use thewiki.Prelude.{◌≡◌, refl, some, none, [], ◌∷◌}
use thewiki.Prelude.Result.{ok, err}
use thewiki.Prelude.Text.{codes, text_eq, trim, trim_start, trim_end, drop_while, is_whitespace}
use thewiki.Core.Tag.{to_ascii_lowercase}
use thewiki.Core.Permissions.{bit_and, bit_or, union, contains}
use thewiki.Storage.Accounts.{
  Accounts, Account, Role, user_by_id, role_by_id, holds, is_assigned, count_users, list_for_user,
  permissions_of, assign_to_user, revoke_from_user, insert_audit, fold_union, get_session,
  session_by_id, touch_session, new_session,
}
use thewiki.Api.Exec.{forbidden}
use thewiki.Api.Admin.{Actor}
use thewiki.Api.Admin.Flags.{format_permissions, permission_flags, parse_permissions}
use thewiki.Api.Admin.Flags.RoundTrip.{parse_permissions-held}
use thewiki.Api.Admin.Roles.{still_assigned, delete_role, create_role, update_role}
use thewiki.Api.Admin.Users.{assign_roles, revoke_role}
use thewiki.Api.Admin.Replay.{Replays}
use thewiki.Api.Admin.History.{assigns, revokes, deletes, serve_all, serve_all-Replays}
use thewiki.Api.Admin.Removal.{delete_role-permissions_of}
use thewiki.Api.Admin.Revocation.{roles_left, revoke_role-authenticate}
use thewiki.Api.Auth.{AuthSession, authenticate}
use native.Mathlib.Omega.{arith}

abbrev admin : Actor
admin = record { user_id = 1; username = codes "root"; permissions = 192 }

abbrev ada : Account
ada = record {
  id = 4;
  username = codes "ada";
  email = none;
  display_name = none;
  password_hash = none;
  created_at = 0;
  last_login_at = none;
}

abbrev editor : Role
editor = record { id = 5; name = codes "editor"; display_name = codes "Editor"; permissions = 3 }

abbrev tables : Accounts
tables = record {
  users = ada ∷ [];
  sessions = [];
  roles = editor ∷ record editor { id = 6; name = codes "mover"; permissions = 16 } ∷ [];
  user_roles = [];
  audit_log = [];
}

administration : Unit {0}
unfolding text_eq trim trim_start trim_end drop_while is_whitespace to_ascii_lowercase bit_and
    bit_or union contains user_by_id role_by_id holds is_assigned count_users list_for_user
    permissions_of assign_to_user revoke_from_user insert_audit get_session session_by_id
    touch_session authenticate delete_role create_role update_role assign_roles revoke_role
administration = tt

barred : parse_permissions (codes "read | Edit" ∷ []) ≡ ok 3
unfolding administration
barred = refl

not_an_admin : (delete_role (record admin { permissions = 64 }) 5 tables).0 ≡ err forbidden
unfolding administration
not_an_admin = refl

held_role : (delete_role admin 5 (assign_roles admin 4 (5 ∷ []) tables).1).0 ≡ err still_assigned
unfolding administration
held_role = refl

parse_permissions-held_example :
    (parse_permissions (permission_flags 2049) ≡ ok 2049)
    × (parse_permissions (format_permissions 2049 ∷ []) ≡ ok 2049)
parse_permissions-held_example = parse_permissions-held 2049 (omega arith)

nobody : Replays tables
unfolding holds
nobody user_id role_id = refl

serve_all-Replays_example : Replays (
    serve_all
      ((admin, assigns 4 (5 ∷ 6 ∷ [])) ∷ (admin, revokes 4 5) ∷ (admin, deletes 6) ∷ [])
      tables)
serve_all-Replays_example =
    serve_all-Replays
      ((admin, assigns 4 (5 ∷ 6 ∷ [])) ∷ (admin, revokes 4 5) ∷ (admin, deletes 6) ∷ []) tables
      nobody

abbrev moving : Accounts
moving = record tables { user_roles = (4, 6) ∷ [] }

delete_role-permissions_of_example :
    permissions_of 4 (delete_role admin 5 moving).1 ≡ permissions_of 4 moving
delete_role-permissions_of_example = delete_role-permissions_of admin 5 4 moving

-- A user who holds both roles and is logged in.
abbrev busy : Accounts
busy = record tables {
  sessions = new_session 9 100 4 60 none none ∷ [];
  user_roles = (4, 5) ∷ (4, 6) ∷ [];
}

abbrev mover : AuthSession
mover = record { user = ada; session_id = 9; permissions = 16 }

editor_revoked : (revoke_role admin 4 5 busy).0 ≡ ok tt
unfolding administration
editor_revoked = refl

ada_comes_in : (authenticate (some 9) 120 (revoke_role admin 4 5 busy).1).0 ≡ ok mover
unfolding administration
ada_comes_in = refl

revoke_role-authenticate_example : 16 ≡ fold_union 0 (roles_left 4 5 busy)
revoke_role-authenticate_example =
    revoke_role-authenticate admin 4 5 9 120 mover busy editor_revoked ada_comes_in refl
