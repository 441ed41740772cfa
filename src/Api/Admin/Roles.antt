-- ===== src/Api/Admin/Roles.antt =====
-- The handlers of crates/api/src/admin/roles.rs.
use thewiki.Prelude.{ℕ, Option, some, none, Bool, true, false, not, ◌||◌, List, [], ◌∷◌, map}
use thewiki.Prelude.Result.{Result, ok, err, and_then, map_err}
use thewiki.Prelude.Tests.{◌==◌, ltb, if◌then◌else◌}
use thewiki.Prelude.Text.{Text, codes, text_eq, trim}
use thewiki.Core.RoleName.{new}
use thewiki.Core.Permissions.{manage_roles}
use thewiki.Storage.Schema.{AuditEntry, Metadata, string}
use thewiki.Storage.Accounts.{
  Accounts, Role, role_by_id, create_role as insert_role, update_role as write_role,
  delete_role as remove_role, count_users, insert_audit,
}
use thewiki.Api.Exec.{ApiError, not_found, conflict, invalid_input, invalid_value, from_storage}
use thewiki.Api.Admin.{Actor, ensure, attempt}
use thewiki.Api.Admin.Flags.{format_permissions, permission_flags, parse_permissions}

pub record AdminRoleView : Type 0 where
  pub id : ℕ
  pub name : Text
  pub display_name : Text
  pub permissions : Text
  pub permission_flags : List Text
  pub assigned_users : ℕ

pub record CreateRoleRequest : Type 0 where
  pub name : Text
  pub display_name : Text
  pub permissions : List Text

pub record UpdateRoleRequest : Type 0 where
  pub display_name : Option Text
  pub permissions : Option (List Text)

abbrev pub build_view : Role → Accounts → AdminRoleView
build_view role db = record {
  id = role.id;
  name = role.name;
  display_name = role.display_name;
  permissions = format_permissions role.permissions;
  permission_flags = permission_flags role.permissions;
  assigned_users = count_users role.id db;
}

abbrev pub get_role : ℕ → Accounts → Result ApiError Role
get_role id db = elim (role_by_id db.roles id) [ none ↦ err not_found | some role ↦ ok role ]

-- The roles stand in the order of the table here.
unfoldable pub list_roles : Actor → Accounts → Result ApiError (List AdminRoleView)
list_roles actor db =
    and_then (ensure manage_roles actor) (λ _. ok (map (λ role. build_view role db) db.roles))

abbrev pub role_event : Actor → Text → Role → Metadata → AuditEntry
role_event actor action role metadata = record {
  actor_id = actor.user_id;
  actor_username = actor.username;
  action = action;
  target_kind = codes "role";
  target_id = role.id;
  target_label = some role.name;
  metadata = metadata;
}

abbrev pub as_it_is : Role → Metadata
as_it_is role =
    (codes "name", string role.name)
    ∷ (codes "display_name", string role.display_name)
    ∷ (codes "permissions", string (format_permissions role.permissions))
    ∷ []

abbrev pub empty_display_name : ApiError
empty_display_name = invalid_input (codes "display_name must not be empty")

abbrev pub requested_role : ℕ → CreateRoleRequest → Result ApiError Role
requested_role fresh_id req =
    if text_eq (trim req.display_name) []
    then err empty_display_name
    else and_then (map_err (invalid_value (codes "name")) (new req.name)) (λ name.
      and_then (parse_permissions req.permissions) (λ permissions. ok (record {
        id = fresh_id;
        name = name;
        display_name = req.display_name;
        permissions = permissions;
      })))

abbrev pub created : Actor → Role → Accounts → Result ApiError AdminRoleView × Accounts
created actor role stored =
    let after = insert_audit (role_event actor (codes "role.create") role (as_it_is role)) stored in
    (ok (build_view role after), after)

unfoldable pub create_role :
    Actor → ℕ → CreateRoleRequest → Accounts → Result ApiError AdminRoleView × Accounts
create_role actor fresh_id req db = attempt (ensure manage_roles actor) db (λ _.
    attempt (requested_role fresh_id req) db
      (λ role. attempt (map_err from_storage (insert_role role db)) db (created actor role)))

-- The role as asked for, and whether it differs.
abbrev pub with_display_name : Option Text → Role → Result ApiError (Role × Bool)
with_display_name none role = ok (role, false)
with_display_name (some display_name) role =
    if text_eq (trim display_name) []
    then err empty_display_name
    else ok
        (record role { display_name = display_name }, not (text_eq display_name role.display_name))

abbrev pub with_permissions : Option (List Text) → Role × Bool → Result ApiError (Role × Bool)
with_permissions none edited = ok edited
with_permissions (some input) edited = and_then (parse_permissions input) (λ permissions.
    let role = edited.0 in
    ok (
      record role { permissions = permissions },
      edited.1 || not (permissions == role.permissions),
    ))

abbrev pub edited_role : UpdateRoleRequest → Role → Result ApiError (Role × Bool)
edited_role req role =
    and_then (with_display_name req.display_name role) (with_permissions req.permissions)

abbrev pub from_to : Role → Role → Metadata
from_to previous role =
    (codes "name", string role.name)
    ∷ (codes "from_display_name", string previous.display_name)
    ∷ (codes "to_display_name", string role.display_name)
    ∷ (codes "from_permissions", string (format_permissions previous.permissions))
    ∷ (codes "to_permissions", string (format_permissions role.permissions))
    ∷ []

abbrev pub updated : Actor → Role → Role → Accounts → Result ApiError AdminRoleView × Accounts
updated actor previous role stored =
    let after =
      insert_audit (role_event actor (codes "role.update") role (from_to previous role)) stored in
    (ok (build_view role after), after)

abbrev pub write_if :
    Actor → Role → Role × Bool → Accounts → Result ApiError AdminRoleView × Accounts
write_if actor previous edited db = elim edited.1 [
  | false ↦ (ok (build_view edited.0 db), db)
  | true ↦
      attempt (map_err from_storage (write_role edited.0 db)) db (updated actor previous edited.0)
]

unfoldable pub update_role :
    Actor → ℕ → UpdateRoleRequest → Accounts → Result ApiError AdminRoleView × Accounts
update_role actor id req db = attempt (ensure manage_roles actor) db (λ _.
    attempt (get_role id db) db (λ previous.
      attempt (edited_role req previous) db (λ edited. write_if actor previous edited db)))

abbrev pub deleted : Actor → Role → Accounts → Result ApiError (Unit {0}) × Accounts
deleted actor role removed =
    (ok tt, insert_audit (role_event actor (codes "role.delete") role (as_it_is role)) removed)

abbrev pub still_assigned : ApiError
still_assigned = conflict (codes "role is still assigned; revoke first")

unfoldable pub delete_role : Actor → ℕ → Accounts → Result ApiError (Unit {0}) × Accounts
delete_role actor id db = attempt (ensure manage_roles actor) db (λ _.
    attempt (get_role id db) db (λ role.
      if ltb 0 (count_users id db)
      then (err still_assigned, db)
      else attempt (map_err from_storage (remove_role id db)) db (deleted actor role)))
