-- ===== src/Api/Admin/Removal.antt =====
-- What the deletion of a role in crates/api/src/admin/roles.rs may take from a user: nothing.
use thewiki.Prelude.{◌≡◌, refl, ap, ◌∙◌, ℕ, false, not, List, [], ◌∷◌, inl, inr}
use thewiki.Prelude.Result.{ok, map_err, map_err-ok}
use thewiki.Prelude.Tests.{◌==◌, ==_iff, ltb, Bool-cases}
use thewiki.Core.Permissions.{manage_roles}
use thewiki.Storage.Tables.{filter}
use thewiki.Storage.Accounts.{
  Accounts, Role, holds, is_assigned, list_for_user, permissions_of, fold_union, insert_audit,
  count_users, delete_role as remove_role,
}
use thewiki.Api.Exec.{from_storage}
use thewiki.Api.Admin.{Actor, ensure, attempt-keeps}
use thewiki.Api.Admin.Roles.{get_role, deleted, delete_role}
use native.Mathlib.Omega.{arith}

is_assigned-holds :
    (rows : List (ℕ × ℕ)) (user_id id : ℕ)
    → is_assigned rows id ≡ false
    → holds rows user_id id ≡ false
unfolding is_assigned holds
is_assigned-holds [] user_id id h = refl
is_assigned-holds (g ∷ rows) user_id id h = ground (arith, is_assigned-holds rows user_id id)

filter-unheld :
    (rows : List (ℕ × ℕ)) (user_id id : ℕ) (roles : List Role)
    → holds rows user_id id ≡ false
    → filter (λ r. holds rows user_id r.id) (filter (λ r. not (r.id == id)) roles)
      ≡ filter (λ r. holds rows user_id r.id) roles
filter-unheld rows user_id id [] h = refl
filter-unheld rows user_id id (role ∷ roles) h =
    ground (arith, filter-unheld rows user_id id roles h, ==_iff role.id id)

abbrev without_role : ℕ → Accounts → Accounts
without_role id db = record db { roles = filter (λ r. not (r.id == id)) db.roles }

remove_role-ok :
    (id : ℕ) (db after : Accounts)
    → remove_role id db ≡ ok after
    → (is_assigned db.user_roles id ≡ false) × (after ≡ without_role id db)
unfolding remove_role
remove_role-ok id db after h = elim (Bool-cases (is_assigned db.user_roles id)) [
  | inl e ↦ ground arith
  | inr e ↦ ground arith
]

remove_role-permissions_of :
    (id user_id : ℕ) (db after : Accounts)
    → remove_role id db ≡ ok after
    → permissions_of user_id after ≡ permissions_of user_id db
unfolding permissions_of list_for_user
remove_role-permissions_of id user_id db after h =
    let (free, p) = remove_role-ok id db after h in
    ap (permissions_of user_id) p
    ∙ ap (fold_union 0) (
        filter-unheld db.user_roles user_id id db.roles
          (is_assigned-holds db.user_roles user_id id free))

-- Deleting a role, whatever the answer, takes no permission from any user.
pub delete_role-permissions_of :
    (actor : Actor) (id user_id : ℕ) (db : Accounts)
    → permissions_of user_id (delete_role actor id db).1 ≡ permissions_of user_id db
unfolding delete_role insert_audit permissions_of list_for_user
delete_role-permissions_of actor id user_id db =
    let Kept : Accounts → Type 0 =
      λ after. permissions_of user_id after ≡ permissions_of user_id db in
    attempt-keeps Kept (ensure manage_roles actor) db _ refl (λ _ _.
      attempt-keeps Kept (get_role id db) db _ refl (λ role _.
        elim (Bool-cases (ltb 0 (count_users id db))) [
          | inl e ↦ rw (e) refl
          | inr e ↦ rw (e) (
              attempt-keeps Kept (map_err from_storage (remove_role id db)) db (deleted actor role)
                refl
                (λ after h.
                  remove_role-permissions_of id user_id db after
                    (map_err-ok from_storage (remove_role id db) after h)))
        ]))
