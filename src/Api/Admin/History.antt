-- ===== src/Api/Admin/History.antt =====
-- That the audit log replays to who holds which role, after any run of the handlers of
-- crates/api/src/admin/roles.rs and users.rs.
use thewiki.Prelude.{
  ◌≡◌, refl, ap, sym, subst, ◌∙◌, ℕ, some, Bool, true, false, List, [], ◌∷◌, inl, inr,
}
use thewiki.Prelude.Lists.{any, find}
use thewiki.Prelude.Result.{Result, ok, err, map_err, ok-injective, some-ok}
use thewiki.Prelude.Tests.{ltb, ◌==◌, ==_refl, Bool-cases}
use thewiki.Prelude.Text.{codes, text_eq}
use thewiki.Core.Permissions.{manage_users, manage_roles}
use thewiki.Api.Admin.Replay.{holds_by_log, Replays, Replays-grant_all, Replays-revoked}
use thewiki.Storage.Schema.{AuditEntry, Metadata}
use thewiki.Storage.Tables.Lookup.{by_key-key}
use thewiki.Storage.Accounts.{
  Accounts, Account, Role, holds, user_by_id, role_by_id, list_for_user, insert_audit, count_users,
  create_role as insert_role, update_role as write_role, delete_role as remove_role,
}
use thewiki.Api.Exec.{ApiError, not_found, from_storage}
use thewiki.Api.Admin.{Actor, ensure, attempt-keeps}
use thewiki.Api.Admin.Roles.{
  get_role, CreateRoleRequest, UpdateRoleRequest, role_event, as_it_is, from_to, requested_role,
  create_role, edited_role, write_if, update_role, deleted, delete_role,
}
use thewiki.Api.Admin.Users.{
  grant_all, assign_roles, revoke_role, viewed, get_account, check_ids, resolve_roles,
}
use native.Mathlib.Omega.{arith}

pub get_account-id :
    (id : ℕ) (db : Accounts) (user : Account) → get_account id db ≡ ok user → user.id ≡ id
unfolding user_by_id
get_account-id id db user h =
    let (found, e, p) = some-ok (user_by_id db.users id) not_found ok user h in
    by_key-key (λ u. u.id) db.users id user (e ∙ ap some (ok-injective found user p))

find-any :
    (id : ℕ) (rows : List Role) (role : Role)
    → find (λ r. r.id == id) rows ≡ some role
    → any (λ r. r.id == role.id) rows ≡ true
find-any id [] role h = cc
find-any id (r ∷ rows) role h = ground (arith, find-any id rows role, ==_refl r.id)

get_role-there :
    (id : ℕ) (db : Accounts) (role : Role)
    → get_role id db ≡ ok role
    → any (λ r. r.id == role.id) db.roles ≡ true
unfolding role_by_id
get_role-there id db role h =
    let (found, e, p) = some-ok (role_by_id db.roles id) not_found ok role h in
    find-any id db.roles role (e ∙ ap some (ok-injective found role p))

Replays-revoke_role :
    (actor : Actor) (id role_id : ℕ) (db : Accounts)
    → Replays db
    → Replays (revoke_role actor id role_id db).1
unfolding revoke_role
Replays-revoke_role actor id role_id db replays =
    attempt-keeps Replays (ensure manage_users actor) db _ replays (λ _ _.
      attempt-keeps Replays (get_account id db) db _ replays (λ user u.
        attempt-keeps Replays (get_role role_id db) db _ replays (λ role r.
          Replays-revoked actor id user role db (get_role-there role_id db role r)
            (get_account-id id db user u) replays)))

viewed-keeps :
    (id : ℕ) (user : Account) (r : Result ApiError (Unit {0}) × Accounts)
    → (viewed id user r).1 ≡ r.1
viewed-keeps id user (err e, db) = refl
viewed-keeps id user (ok t, db) = refl

Replays-assign_roles :
    (actor : Actor) (id : ℕ) (role_ids : List ℕ) (db : Accounts)
    → Replays db
    → Replays (assign_roles actor id role_ids db).1
unfolding assign_roles
Replays-assign_roles actor id role_ids db replays =
    attempt-keeps Replays (ensure manage_users actor) db _ replays (λ _ _.
      attempt-keeps Replays (check_ids role_ids) db _ replays (λ _ _.
        attempt-keeps Replays (get_account id db) db _ replays (λ user u.
          attempt-keeps Replays (resolve_roles role_ids db) db _ replays (λ roles _.
            subst Replays
              (sym (viewed-keeps id user (grant_all actor id user (list_for_user id db) roles db)))
              (Replays-grant_all actor id user (list_for_user id db) roles db
                (get_account-id id db user u) replays)))))

-- The row that a handler of roles.rs writes is about no user.
log-role_event :
    (actor : Actor) (role : Role) (metadata : Metadata) (log : List AuditEntry) (u r : ℕ)
    → (holds_by_log (role_event actor (codes "role.create") role metadata ∷ log) u r
        ≡ holds_by_log log u r)
      × (holds_by_log (role_event actor (codes "role.update") role metadata ∷ log) u r
          ≡ holds_by_log log u r)
      × (holds_by_log (role_event actor (codes "role.delete") role metadata ∷ log) u r
          ≡ holds_by_log log u r)
unfolding text_eq
log-role_event actor role metadata log u r = (refl, refl, refl)

-- A statement on the roles alone.
Same : Accounts → Accounts → Type 0
Same db after = (after.user_roles ≡ db.user_roles) × (after.audit_log ≡ db.audit_log)

insert_role-Same :
    (role : Role) (db after : Accounts)
    → map_err from_storage (insert_role role db) ≡ ok after
    → Same db after
unfolding insert_role Same
insert_role-Same role db after h = ground arith

write_role-Same :
    (role : Role) (db after : Accounts)
    → map_err from_storage (write_role role db) ≡ ok after
    → Same db after
unfolding write_role Same
write_role-Same role db after h = ground arith

remove_role-Same :
    (id : ℕ) (db after : Accounts)
    → map_err from_storage (remove_role id db) ≡ ok after
    → Same db after
unfolding remove_role Same
remove_role-Same id db after h = ground arith

Replays-Same :
    (db after : Accounts) (entry : AuditEntry)
    → Same db after
    → ((u r : ℕ) → holds_by_log (entry ∷ after.audit_log) u r ≡ holds_by_log after.audit_log u r)
    → Replays db
    → Replays (insert_audit entry after)
unfolding Same insert_audit
Replays-Same db after entry (rows, log) silent replays u r =
    ap (λ z. holds z u r) rows
    ∙ replays u r
    ∙ ap (λ z. holds_by_log z u r) (sym log)
    ∙ sym (silent u r)

Replays-create_role :
    (actor : Actor) (id : ℕ) (req : CreateRoleRequest) (db : Accounts)
    → Replays db
    → Replays (create_role actor id req db).1
unfolding create_role
Replays-create_role actor id req db replays =
    attempt-keeps Replays (ensure manage_roles actor) db _ replays (λ _ _.
      attempt-keeps Replays (requested_role id req) db _ replays (λ role _.
        attempt-keeps Replays (map_err from_storage (insert_role role db)) db _ replays (λ after h.
          Replays-Same db after (role_event actor (codes "role.create") role (as_it_is role))
            (insert_role-Same role db after h)
            (λ u r. (log-role_event actor role (as_it_is role) after.audit_log u r).0) replays)))

Replays-write_if :
    (actor : Actor) (previous : Role) (edited : Role × Bool) (db : Accounts)
    → Replays db
    → Replays (write_if actor previous edited db).1
Replays-write_if actor previous (role, false) db replays = replays
Replays-write_if actor previous (role, true) db replays =
    attempt-keeps Replays (map_err from_storage (write_role role db)) db _ replays (λ after h.
      Replays-Same db after (role_event actor (codes "role.update") role (from_to previous role))
        (write_role-Same role db after h)
        (λ u r. (log-role_event actor role (from_to previous role) after.audit_log u r).1) replays)

Replays-update_role :
    (actor : Actor) (id : ℕ) (req : UpdateRoleRequest) (db : Accounts)
    → Replays db
    → Replays (update_role actor id req db).1
unfolding update_role
Replays-update_role actor id req db replays =
    attempt-keeps Replays (ensure manage_roles actor) db _ replays (λ _ _.
      attempt-keeps Replays (get_role id db) db _ replays (λ previous _.
        attempt-keeps Replays (edited_role req previous) db _ replays
          (λ edited _. Replays-write_if actor previous edited db replays)))

Replays-delete_role :
    (actor : Actor) (id : ℕ) (db : Accounts) → Replays db → Replays (delete_role actor id db).1
unfolding delete_role
Replays-delete_role actor id db replays =
    attempt-keeps Replays (ensure manage_roles actor) db _ replays (λ _ _.
      attempt-keeps Replays (get_role id db) db _ replays (λ role _.
        elim (Bool-cases (ltb 0 (count_users id db))) [
          | inl e ↦ rw (e) replays
          | inr e ↦ rw (e) (
              attempt-keeps Replays (map_err from_storage (remove_role id db)) db
                (deleted actor role) replays
                (λ after h.
                  Replays-Same db after
                    (role_event actor (codes "role.delete") role (as_it_is role))
                    (remove_role-Same id db after h)
                    (λ u r. (log-role_event actor role (as_it_is role) after.audit_log u r).2)
                    replays))
        ]))

-- The requests that change the tables.
pub data AdminRequest : Type 0 where
  creates : (id : ℕ) → CreateRoleRequest → AdminRequest
  updates : (id : ℕ) → UpdateRoleRequest → AdminRequest
  deletes : (id : ℕ) → AdminRequest
  assigns : (id : ℕ) (role_ids : List ℕ) → AdminRequest
  revokes : (id role_id : ℕ) → AdminRequest

abbrev pub serve : Actor → AdminRequest → Accounts → Accounts
serve actor (creates id req) db = (create_role actor id req db).1
serve actor (updates id req) db = (update_role actor id req db).1
serve actor (deletes id) db = (delete_role actor id db).1
serve actor (assigns id role_ids) db = (assign_roles actor id role_ids db).1
serve actor (revokes id role_id) db = (revoke_role actor id role_id db).1

abbrev pub serve_all : List (Actor × AdminRequest) → Accounts → Accounts
serve_all [] db = db
serve_all ((actor, request) ∷ requests) db = serve_all requests (serve actor request db)

serve-Replays :
    (actor : Actor) (request : AdminRequest) (db : Accounts)
    → Replays db
    → Replays (serve actor request db)
serve-Replays actor (creates id req) db r = Replays-create_role actor id req db r
serve-Replays actor (updates id req) db r = Replays-update_role actor id req db r
serve-Replays actor (deletes id) db r = Replays-delete_role actor id db r
serve-Replays actor (assigns id role_ids) db r = Replays-assign_roles actor id role_ids db r
serve-Replays actor (revokes id role_id) db r = Replays-revoke_role actor id role_id db r

-- If who holds which role is what the newest row of the audit log about the two says, an assignment or a
-- revocation, then it still is after every run of requests to the handlers of roles and of users' roles,
-- whoever makes them, those included that fail or stop half way.
pub serve_all-Replays :
    (requests : List (Actor × AdminRequest)) (db : Accounts)
    → Replays db
    → Replays (serve_all requests db)
serve_all-Replays [] db replays = replays
serve_all-Replays ((actor, request) ∷ requests) db replays =
    serve_all-Replays requests (serve actor request db) (serve-Replays actor request db replays)
