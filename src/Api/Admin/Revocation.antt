-- ===== src/Api/Admin/Revocation.antt =====
-- What the revocation of a role in crates/api/src/admin/users.rs takes from the requests after it, in the
-- extractor of crates/api/src/auth/extractors.rs.
use thewiki.Prelude.{◌≡◌, refl, ap, sym, ◌∙◌, ℕ, some, not, ◌&&◌, List, [], ◌∷◌, inl, inr}
use thewiki.Prelude.Lists.{any}
use thewiki.Prelude.Result.{Result, ok, err, Result-cases, some-ok, ok-injective}
use thewiki.Prelude.Tests.{◌==◌, ==_iff, Bool-cases, Option-cases}
use thewiki.Core.Permissions.{manage_users}
use thewiki.Storage.Tables.{filter}
use thewiki.Storage.Tables.Lookup.{by_key-key}
use thewiki.Storage.Accounts.{
  Accounts, Account, Role, holds, list_for_user, permissions_of, fold_union, revoke_from_user,
  insert_audit, role_by_id, get_session, user_by_id,
}
use thewiki.Api.Exec.{ApiError, not_found}
use thewiki.Api.Admin.{Actor, ensure, attempt}
use thewiki.Api.Admin.Roles.{get_role}
use thewiki.Api.Admin.Users.{get_account, revoke_role, revoked}
use thewiki.Api.Auth.{AuthSession, authenticate}
use thewiki.Api.Auth.Lifecycle.{permissions_of-touched}
use native.Mathlib.Omega.{arith}

-- What is held once one grant is gone.
holds-filter :
    (rows : List (ℕ × ℕ)) (u r x : ℕ)
    → holds (filter (λ g. not (g.0 == u && g.1 == r)) rows) u x ≡ (holds rows u x && not (x == r))
unfolding holds
holds-filter [] u r x = refl
holds-filter (g ∷ rows) u r x =
    ground (arith, holds-filter rows u r x, ==_iff g.0 u, ==_iff g.1 r, ==_iff g.1 x, ==_iff x r)

filter-twice :
    (rows : List (ℕ × ℕ)) (u r : ℕ) (roles : List Role)
    → filter (λ x. holds (filter (λ g. not (g.0 == u && g.1 == r)) rows) u x.id) roles
      ≡ filter (λ x. not (x.id == r)) (filter (λ x. holds rows u x.id) roles)
filter-twice rows u r [] = refl
filter-twice rows u r (role ∷ roles) =
    ground (arith, filter-twice rows u r roles, holds-filter rows u r role.id)

get_role-id : (id : ℕ) (db : Accounts) (role : Role) → get_role id db ≡ ok role → role.id ≡ id
unfolding role_by_id
get_role-id id db role h =
    let (found, e, p) = some-ok (role_by_id db.roles id) not_found ok role h in
    by_key-key (λ r. r.id) db.roles id role (e ∙ ap some (ok-injective found role p))

-- The handler's last step, when the answer is no error.
attempt-ok :
    {S A B : Type 0} (r : Result ApiError A) (db : S) (next : A → Result ApiError B × S) (b : B)
    → (attempt r db next).0 ≡ ok b
    → (a : A) × (r ≡ ok a) × (attempt r db next ≡ next a)
attempt-ok (ok a) db next b h = (a, refl, refl)
attempt-ok (err e) db next b h = cc

-- The roles that a user who has lost one is listed with.
abbrev pub roles_left : ℕ → ℕ → Accounts → List Role
roles_left id role_id db = filter (λ r. not (r.id == role_id)) (list_for_user id db)

list_for_user-revoked :
    (actor : Actor) (id : ℕ) (user : Account) (role : Role) (db : Accounts)
    → list_for_user id (revoked actor id user role db).1 ≡ roles_left id role.id db
unfolding list_for_user revoke_from_user insert_audit
list_for_user-revoked actor id user role db =
    elim (Bool-cases (any (λ r. r.id == role.id) (list_for_user id db))) [
      | inl e ↦ rw (e) (filter-twice db.user_roles id role.id db.roles)
      | inr e ↦ rw (e) (filter-twice db.user_roles id role.id db.roles)
    ]

list_for_user-revoke_role :
    (actor : Actor) (id role_id : ℕ) (db : Accounts)
    → (revoke_role actor id role_id db).0 ≡ ok tt
    → list_for_user id (revoke_role actor id role_id db).1 ≡ roles_left id role_id db
unfolding revoke_role
list_for_user-revoke_role actor id role_id db h =
    let (_, _, p1) = attempt-ok (ensure manage_users actor) db _ tt h in
    let (user, _, p2) = attempt-ok (get_account id db) db _ tt (ap (λ z. z.0) (sym p1) ∙ h) in
    let (role, r, p3) =
      attempt-ok (get_role role_id db) db _ tt (ap (λ z. z.0) (sym (p1 ∙ p2)) ∙ h) in
    ap (λ z. list_for_user id z.1) (p1 ∙ p2 ∙ p3)
    ∙ list_for_user-revoked actor id user role db
    ∙ ap (λ i. roles_left id i db) (get_role-id role_id db role r)

-- The extractor reads the permissions from the tables each time.
authenticate-permissions :
    (session_id now : ℕ) (auth : AuthSession) (db : Accounts)
    → (authenticate (some session_id) now db).0 ≡ ok auth
    → auth.permissions ≡ permissions_of auth.user.id db
unfolding authenticate
authenticate-permissions session_id now auth db h =
    elim (Result-cases (get_session session_id now db)) [
      | inr (e, f) ↦ ground arith
      | inl (session, f) ↦ elim (Option-cases (user_by_id db.users session.user_id)) [
        | inl e ↦ ground arith
        | inr (user, e) ↦ ground (arith, permissions_of-touched user.id session.id now db)
      ]
    ]

-- After a revocation that is answered with success, a request that is let in as the user has exactly what
-- the roles the user held before grant, the revoked one left out, whatever session it comes with.
pub revoke_role-authenticate :
    (actor : Actor) (id role_id session_id now : ℕ) (auth : AuthSession) (db : Accounts)
    → (revoke_role actor id role_id db).0 ≡ ok tt
    → (authenticate (some session_id) now (revoke_role actor id role_id db).1).0 ≡ ok auth
    → auth.user.id ≡ id
    → auth.permissions ≡ fold_union 0 (roles_left id role_id db)
unfolding permissions_of
revoke_role-authenticate actor id role_id session_id now auth db h entered same =
    authenticate-permissions session_id now auth (revoke_role actor id role_id db).1 entered
    ∙ ap (λ i. permissions_of i (revoke_role actor id role_id db).1) same
    ∙ ap (fold_union 0) (list_for_user-revoke_role actor id role_id db h)
