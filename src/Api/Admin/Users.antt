-- ===== src/Api/Admin/Users.antt =====
-- The handlers of crates/api/src/admin/users.rs on one user.
use thewiki.Prelude.{ℕ, Option, some, none, Bool, true, false, ◌||◌, List, [], ◌∷◌, map}
use thewiki.Prelude.Lists.{any}
use thewiki.Prelude.Result.{Result, ok, err, and_then, map_err}
use thewiki.Prelude.Tests.{◌==◌, if◌then◌else◌}
use thewiki.Prelude.Text.{Text, codes}
use thewiki.Core.Permissions.{manage_users}
use thewiki.Storage.Schema.{AuditEntry, uuid, string}
use thewiki.Storage.Accounts.{
  Accounts, Account, Role, user_by_id, list_for_user, assign_to_user, revoke_from_user,
  insert_audit,
}
use thewiki.Api.Exec.{ApiError, not_found, invalid_input, from_storage}
use thewiki.Api.Admin.{Actor, ensure, attempt}
use thewiki.Api.Admin.Flags.{format_permissions}
use thewiki.Api.Admin.Roles.{get_role}

pub record UserRoleView : Type 0 where
  pub id : ℕ
  pub name : Text
  pub display_name : Text
  pub permissions : Text

pub record AdminUserView : Type 0 where
  pub id : ℕ
  pub username : Text
  pub email : Option Text
  pub display_name : Option Text
  pub created_at : ℕ
  pub last_login_at : Option ℕ
  pub roles : List UserRoleView

abbrev pub role_view : Role → UserRoleView
role_view role = record {
  id = role.id;
  name = role.name;
  display_name = role.display_name;
  permissions = format_permissions role.permissions;
}

abbrev pub admin_user_view : Account → List Role → AdminUserView
admin_user_view user roles = record {
  id = user.id;
  username = user.username;
  email = user.email;
  display_name = user.display_name;
  created_at = user.created_at;
  last_login_at = user.last_login_at;
  roles = map role_view roles;
}

abbrev pub get_account : ℕ → Accounts → Result ApiError Account
get_account id db = elim (user_by_id db.users id) [ none ↦ err not_found | some user ↦ ok user ]

unfoldable pub get_user : Actor → ℕ → Accounts → Result ApiError AdminUserView
get_user actor id db = and_then (ensure manage_users actor) (λ _.
    and_then (get_account id db) (λ user. ok (admin_user_view user (list_for_user user.id db))))

-- Whether an id occurs twice, or among those seen.
abbrev pub has_duplicates : List ℕ → List ℕ → Bool
has_duplicates seen [] = false
has_duplicates seen (id ∷ ids) = any (λ x. x == id) seen || has_duplicates (id ∷ seen) ids

abbrev pub check_ids : List ℕ → Result ApiError (Unit {0})
check_ids [] = err (invalid_input (codes "role_ids must not be empty"))
check_ids (id ∷ ids) =
    if has_duplicates [] (id ∷ ids)
    then err (invalid_input (codes "role_ids must not contain duplicates"))
    else ok tt

abbrev pub resolve_roles : List ℕ → Accounts → Result ApiError (List Role)
resolve_roles [] db = ok []
resolve_roles (id ∷ ids) db =
    and_then (get_role id db) (λ role. and_then (resolve_roles ids db) (λ roles. ok (role ∷ roles)))

abbrev pub assign_action : Text
assign_action = codes "user.role.assign"

abbrev pub revoke_action : Text
revoke_action = codes "user.role.revoke"

abbrev pub grant_event : Actor → Text → Account → Role → AuditEntry
grant_event actor action user role = record {
  actor_id = actor.user_id;
  actor_username = actor.username;
  action = action;
  target_kind = codes "user";
  target_id = user.id;
  target_label = some user.username;
  metadata = (codes "role_id", uuid role.id) ∷ (codes "role_name", string role.name) ∷ [];
}

-- The roles held before are passed over; an assignment that fails leaves those before it.
abbrev pub grant_all :
    Actor → ℕ → Account → List Role → List Role → Accounts → Result ApiError (Unit {0}) × Accounts
grant_all actor user_id user existing [] db = (ok tt, db)
grant_all actor user_id user existing (role ∷ roles) db =
    elim (any (λ r. r.id == role.id) existing) [
      | true ↦ grant_all actor user_id user existing roles db
      | false ↦ attempt (map_err from_storage (assign_to_user user_id role.id db)) db (λ after.
          grant_all actor user_id user existing roles
            (insert_audit (grant_event actor assign_action user role) after))
    ]

abbrev pub viewed :
    ℕ → Account → Result ApiError (Unit {0}) × Accounts → Result ApiError AdminUserView × Accounts
viewed user_id user (err e, db) = (err e, db)
viewed user_id user (ok t, db) = (ok (admin_user_view user (list_for_user user_id db)), db)

unfoldable pub assign_roles :
    Actor → ℕ → List ℕ → Accounts → Result ApiError AdminUserView × Accounts
assign_roles actor id role_ids db = attempt (ensure manage_users actor) db (λ _.
    attempt (check_ids role_ids) db (λ _. attempt (get_account id db) db (λ user.
      attempt (resolve_roles role_ids db) db
        (λ resolved. viewed id user (grant_all actor id user (list_for_user id db) resolved db)))))

abbrev pub revoked : Actor → ℕ → Account → Role → Accounts → Result ApiError (Unit {0}) × Accounts
revoked actor user_id user role db =
    let was_assigned = any (λ r. r.id == role.id) (list_for_user user_id db) in
    let after = revoke_from_user user_id role.id db in
    if was_assigned
    then (ok tt, insert_audit (grant_event actor revoke_action user role) after)
    else (ok tt, after)

unfoldable pub revoke_role : Actor → ℕ → ℕ → Accounts → Result ApiError (Unit {0}) × Accounts
revoke_role actor id role_id db = attempt (ensure manage_users actor) db (λ _.
    attempt (get_account id db) db
      (λ user. attempt (get_role role_id db) db (λ role. revoked actor id user role db)))
