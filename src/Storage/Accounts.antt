-- ===== src/Storage/Accounts.antt =====
-- crates/storage/src/sqlite/user.rs, session.rs and role.rs: users with their password hashes, sessions,
-- roles and who holds them, with the keys and the foreign keys of migrations/00000000000000_init.sql and
-- migrations/20260522005020_sessions.sql, beside the audit log. Times are seconds. The order in which
-- roles are listed, by their names, is left out.
pub mod Sessions
use thewiki.Prelude.{ℕ, ◌+◌, Option, some, none, Bool, true, false, not, ◌&&◌, ◌||◌, List, [], ◌∷◌}
use thewiki.Prelude.Lists.{find, any, length}
use thewiki.Prelude.Result.{Result, ok, err}
use thewiki.Prelude.Tests.{◌==◌, leb, if◌then◌else◌}
use thewiki.Prelude.Text.{Text, codes, text_eq}
use thewiki.Core.Permissions.{union}
use thewiki.Storage.Schema.{StorageError, not_found, conflict, database, AuditEntry}
use thewiki.Storage.Tables.{filter, update_where, is_there}

pub record Account : Type 0 where
  pub id : ℕ
  pub username : Text
  pub email : Option Text
  pub display_name : Option Text
  pub password_hash : Option Text
  pub created_at : ℕ
  pub last_login_at : Option ℕ

pub record Session : Type 0 where
  pub id : ℕ
  pub user_id : ℕ
  pub created_at : ℕ
  pub expires_at : ℕ
  pub last_seen_at : ℕ
  pub user_agent : Option Text
  pub ip_address : Option Text

pub record Role : Type 0 where
  pub id : ℕ
  pub name : Text
  pub display_name : Text
  pub permissions : ℕ

pub record Accounts : Type 0 where
  pub users : List Account
  pub sessions : List Session
  pub roles : List Role
  -- the user's id and the role's
  pub user_roles : List (ℕ × ℕ)
  pub audit_log : List AuditEntry

unfoldable pub user_by_id : List Account → ℕ → Option Account
user_by_id rows id = find (λ u. u.id == id) rows

unfoldable pub user_by_name : List Account → Text → Option Account
user_by_name rows name = find (λ u. text_eq u.username name) rows

unfoldable pub session_by_id : List Session → ℕ → Option Session
session_by_id rows id = find (λ s. s.id == id) rows

unfoldable pub role_by_id : List Role → ℕ → Option Role
role_by_id rows id = find (λ r. r.id == id) rows

unfoldable pub role_by_name : List Role → Text → Option Role
role_by_name rows name = find (λ r. text_eq r.name name) rows

unfoldable pub create_user : Account → Accounts → Result StorageError Accounts
create_user user db =
    if is_there (user_by_id db.users user.id) || is_there (user_by_name db.users user.username)
    then err (conflict (codes "username already taken"))
    else ok (record db { users = user ∷ db.users })

-- `UPDATE users SET`; the name, the hash and the time of creation stay.
abbrev pub overwrite_user : Account → Account → Account
overwrite_user user row = record row {
  email = user.email;
  display_name = user.display_name;
  last_login_at = user.last_login_at;
}

unfoldable pub update_user : Account → Accounts → Result StorageError Accounts
update_user user db =
    if is_there (user_by_id db.users user.id)
    then ok
        (record db { users = update_where (λ u. u.id == user.id) (overwrite_user user) db.users })
    else err not_found

-- The id is fresh, and `saturating_add` never saturates.
abbrev pub new_session : ℕ → ℕ → ℕ → ℕ → Option Text → Option Text → Session
new_session fresh_id now user_id ttl user_agent ip_address = record {
  id = fresh_id;
  user_id = user_id;
  created_at = now;
  expires_at = now + ttl;
  last_seen_at = now;
  user_agent = user_agent;
  ip_address = ip_address;
}

unfoldable pub create_session : Session → Accounts → Result StorageError Accounts
create_session session db =
    if is_there (session_by_id db.sessions session.id)
      || not (is_there (user_by_id db.users session.user_id))
    then err database
    else ok (record db { sessions = session ∷ db.sessions })

abbrev pub is_expired_at : Session → ℕ → Bool
is_expired_at session now = leb session.expires_at now

abbrev pub unless_expired : Option Session → ℕ → Result StorageError Session
unless_expired none now = err not_found
unless_expired (some session) now = if is_expired_at session now then err not_found else ok session

unfoldable pub get_session : ℕ → ℕ → Accounts → Result StorageError Session
get_session id now db = unless_expired (session_by_id db.sessions id) now

abbrev pub seen_at : ℕ → Session → Session
seen_at now session = record session { last_seen_at = now }

unfoldable pub touch_session : ℕ → ℕ → Accounts → Result StorageError Accounts
touch_session id now db =
    if is_there (session_by_id db.sessions id)
    then ok (record db { sessions = update_where (λ s. s.id == id) (seen_at now) db.sessions })
    else err not_found

unfoldable pub delete_session : ℕ → Accounts → Result StorageError Accounts
delete_session id db =
    if is_there (session_by_id db.sessions id)
    then ok (record db { sessions = filter (λ s. not (s.id == id)) db.sessions })
    else err not_found

unfoldable delete_for_user : ℕ → Accounts → Accounts
delete_for_user user_id db = record db {
  sessions = filter (λ s. not (s.user_id == user_id)) db.sessions;
}

unfoldable pub prune_expired : ℕ → Accounts → Accounts
prune_expired now db = record db { sessions = filter (λ s. not (is_expired_at s now)) db.sessions }

unfoldable pub create_role : Role → Accounts → Result StorageError Accounts
create_role role db =
    if is_there (role_by_id db.roles role.id) || is_there (role_by_name db.roles role.name)
    then err (conflict (codes "role name already in use"))
    else ok (record db { roles = role ∷ db.roles })

abbrev pub overwrite_role : Role → Role → Role
overwrite_role role row = record row {
  display_name = role.display_name;
  permissions = role.permissions;
}

unfoldable pub update_role : Role → Accounts → Result StorageError Accounts
update_role role db =
    if is_there (role_by_id db.roles role.id)
    then ok
        (record db { roles = update_where (λ r. r.id == role.id) (overwrite_role role) db.roles })
    else err not_found

unfoldable pub holds : List (ℕ × ℕ) → ℕ → ℕ → Bool
holds rows user_id role_id = any (λ g. g.0 == user_id && g.1 == role_id) rows

unfoldable pub is_assigned : List (ℕ × ℕ) → ℕ → Bool
is_assigned rows role_id = any (λ g. g.1 == role_id) rows

unfoldable pub count_users : ℕ → Accounts → ℕ
count_users role_id db = length (filter (λ g. g.1 == role_id) db.user_roles)

-- One statement deletes the role if nobody holds it.
unfoldable pub delete_role : ℕ → Accounts → Result StorageError Accounts
delete_role id db =
    if is_there (role_by_id db.roles id) && not (is_assigned db.user_roles id)
    then ok (record db { roles = filter (λ r. not (r.id == id)) db.roles })
    else if is_there (role_by_id db.roles id)
    then err (conflict (codes "role is still assigned to one or more users"))
    else err not_found

unfoldable pub assign_to_user : ℕ → ℕ → Accounts → Result StorageError Accounts
assign_to_user user_id role_id db =
    if holds db.user_roles user_id role_id
    then ok db
    else if is_there (user_by_id db.users user_id) && is_there (role_by_id db.roles role_id)
    then ok (record db { user_roles = (user_id, role_id) ∷ db.user_roles })
    else err database

unfoldable pub revoke_from_user : ℕ → ℕ → Accounts → Accounts
revoke_from_user user_id role_id db = record db {
  user_roles = filter (λ g. not (g.0 == user_id && g.1 == role_id)) db.user_roles;
}

unfoldable pub list_for_user : ℕ → Accounts → List Role
list_for_user user_id db = filter (λ r. holds db.user_roles user_id r.id) db.roles

-- What the roles grant together, with what is granted so far.
abbrev pub fold_union : ℕ → List Role → ℕ
fold_union acc [] = acc
fold_union acc (role ∷ roles) = fold_union (union acc role.permissions) roles

unfoldable pub permissions_of : ℕ → Accounts → ℕ
permissions_of user_id db = fold_union 0 (list_for_user user_id db)

unfoldable pub insert_audit : AuditEntry → Accounts → Accounts
insert_audit entry db = record db { audit_log = entry ∷ db.audit_log }
