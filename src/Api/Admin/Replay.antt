-- ===== src/Api/Admin/Replay.antt =====
-- The audit log of crates/api/src/admin/users.rs as the history of who holds which role.
use thewiki.Prelude.{
  ◌≡◌, refl, ap, ap₂, sym, ◌∙◌, ℕ, Option, some, none, Bool, true, false, not, ◌&&◌, ◌||◌, List, [],
  ◌∷◌, inl, inr, ◌⊎◌,
}
use thewiki.Prelude.Lists.{any}
use thewiki.Prelude.Result.{ok, map_err, map_err-ok}
use thewiki.Prelude.Tests.{◌==◌, ==_iff, if◌then◌else◌, Bool-cases}
use thewiki.Prelude.Text.{Text, codes, text_eq}
use thewiki.Storage.Schema.{AuditEntry, Metadata, Json, uuid, string, flag}
use thewiki.Storage.Tables.{filter}
use thewiki.Storage.Accounts.{
  Accounts, Account, Role, holds, list_for_user, assign_to_user, revoke_from_user, insert_audit,
}
use thewiki.Api.Exec.{from_storage}
use thewiki.Api.Admin.{Actor, attempt-keeps}
use thewiki.Api.Admin.Users.{assign_action, revoke_action, grant_event, grant_all, revoked}
use native.Mathlib.Omega.{arith}

abbrev as_id : Json → Option ℕ
as_id (uuid id) = some id
as_id (string s) = none
as_id (flag b) = none

-- The id under a key.
abbrev id_under : Text → Metadata → Option ℕ
id_under key [] = none
id_under key ((k, value) ∷ metadata) = if text_eq k key then as_id value else id_under key metadata

abbrev is_some : Option ℕ → ℕ → Bool
is_some none id = false
is_some (some a) id = a == id

abbrev is_about : ℕ → ℕ → AuditEntry → Bool
is_about user_id role_id entry =
    (text_eq entry.action assign_action || text_eq entry.action revoke_action)
    && (entry.target_id == user_id && is_some (id_under (codes "role_id") entry.metadata) role_id)

-- Whether the user holds the role by the log alone: the newest row about the two decides.
abbrev pub holds_by_log : List AuditEntry → ℕ → ℕ → Bool
holds_by_log [] user_id role_id = false
holds_by_log (entry ∷ entries) user_id role_id =
    let before = holds_by_log entries user_id role_id in
    if is_about user_id role_id entry then text_eq entry.action assign_action else before

abbrev pub Replays : Accounts → Type 0
Replays db =
    (user_id role_id : ℕ)
    → holds db.user_roles user_id role_id ≡ holds_by_log db.audit_log user_id role_id

holds-cons :
    (u r user_id role_id : ℕ) (rows : List (ℕ × ℕ))
    → holds ((u, r) ∷ rows) user_id role_id
      ≡ ((u == user_id && r == role_id) || holds rows user_id role_id)
unfolding holds
holds-cons u r user_id role_id rows = refl

holds-filter :
    (u r user_id role_id : ℕ) (rows : List (ℕ × ℕ))
    → holds (filter (λ g. not (g.0 == u && g.1 == r)) rows) user_id role_id
      ≡ (if u == user_id && r == role_id then false else holds rows user_id role_id)
unfolding holds
holds-filter u r user_id role_id [] = ground arith
holds-filter u r user_id role_id (g ∷ rows) =
    ground (arith, holds-filter u r user_id role_id rows, ==_iff g.0 u, ==_iff g.1 r)

log-assign :
    (actor : Actor) (user : Account) (role : Role) (log : List AuditEntry) (user_id role_id : ℕ)
    → holds_by_log (grant_event actor assign_action user role ∷ log) user_id role_id ≡ (
        if user.id == user_id && role.id == role_id then true else holds_by_log log user_id role_id)
unfolding text_eq
log-assign actor user role log user_id role_id = refl

log-revoke :
    (actor : Actor) (user : Account) (role : Role) (log : List AuditEntry) (user_id role_id : ℕ)
    → holds_by_log (grant_event actor revoke_action user role ∷ log) user_id role_id ≡ (
        if user.id == user_id && role.id == role_id
        then false
        else holds_by_log log user_id role_id)
unfolding text_eq
log-revoke actor user role log user_id role_id = refl

-- A role that exists is among those listed for a user exactly if the user holds it.
any-list_for_user :
    (user_id id : ℕ) (rows : List (ℕ × ℕ)) (roles : List Role)
    → any (λ r. r.id == id) (filter (λ r. holds rows user_id r.id) roles)
      ≡ (any (λ r. r.id == id) roles && holds rows user_id id)
any-list_for_user user_id id rows [] = refl
any-list_for_user user_id id rows (role ∷ roles) =
    ground (arith, any-list_for_user user_id id rows roles, ==_iff role.id id)

abbrev granted : ℕ → ℕ → Accounts → Accounts
granted user_id id db = record db { user_roles = (user_id, id) ∷ db.user_roles }

assign_to_user-ok :
    (user_id id : ℕ) (db after : Accounts)
    → assign_to_user user_id id db ≡ ok after
    → ((holds db.user_roles user_id id ≡ true) × (after ≡ db)) ⊎ (after ≡ granted user_id id db)
unfolding assign_to_user
assign_to_user-ok user_id id db after done = elim (Bool-cases (holds db.user_roles user_id id)) [
  | inl e ↦ ground arith
  | inr e ↦ ground arith
]

again :
    (rows : List (ℕ × ℕ)) (user_id id u r : ℕ)
    → holds rows user_id id ≡ true
    → holds rows u r ≡ ((user_id == u && id == r) || holds rows u r)
again rows user_id id u r h = ground (arith, ==_iff user_id u, ==_iff id r)

assign_to_user-holds :
    (user_id id : ℕ) (db after : Accounts)
    → assign_to_user user_id id db ≡ ok after
    → (after.audit_log ≡ db.audit_log)
      × ((u r : ℕ)
          → holds after.user_roles u r ≡ ((user_id == u && id == r) || holds db.user_roles u r))
assign_to_user-holds user_id id db after done = elim (assign_to_user-ok user_id id db after done) [
  | inl (e, p) ↦ (
    ap (λ z. z.audit_log) p,
    λ u r. ap (λ z. holds z.user_roles u r) p ∙ again db.user_roles user_id id u r e,
  )
  | inr p ↦ (
    ap (λ z. z.audit_log) p,
    λ u r. ap (λ z. holds z.user_roles u r) p ∙ holds-cons user_id id u r db.user_roles,
  )
]

or_if : (a b : Bool) → (a || b) ≡ (if a then true else b)
or_if true b = refl
or_if false b = refl

Replays-assign :
    (actor : Actor) (user_id : ℕ) (user : Account) (role : Role) (db after : Accounts)
    → user.id ≡ user_id
    → assign_to_user user_id role.id db ≡ ok after
    → Replays db
    → Replays (insert_audit (grant_event actor assign_action user role) after)
unfolding insert_audit
Replays-assign actor user_id user role db after same done replays u r =
    let (unlogged, holding) = assign_to_user-holds user_id role.id db after done in
    holding u r
    ∙ or_if (user_id == u && role.id == r) (holds db.user_roles u r)
    ∙ ap₂ (λ k before. if k == u && role.id == r then true else before) (sym same)
        (replays u r ∙ ap (λ log. holds_by_log log u r) (sym unlogged))
    ∙ sym (log-assign actor user role after.audit_log u r)

pub Replays-grant_all :
    (actor : Actor) (user_id : ℕ) (user : Account) (existing roles : List Role) (db : Accounts)
    → user.id ≡ user_id
    → Replays db
    → Replays (grant_all actor user_id user existing roles db).1
Replays-grant_all actor user_id user existing [] db same replays = replays
Replays-grant_all actor user_id user existing (role ∷ roles) db same replays =
    elim (Bool-cases (any (λ r. r.id == role.id) existing)) [
      | inl e ↦
          rw (grant_all, e) (Replays-grant_all actor user_id user existing roles db same replays)
      | inr e ↦
          rw (grant_all, e)
            (attempt-keeps Replays (map_err from_storage (assign_to_user user_id role.id db)) db
              (λ after.
                grant_all actor user_id user existing roles
                  (insert_audit (grant_event actor assign_action user role) after))
              replays
              (λ after done.
                Replays-grant_all actor user_id user existing roles
                  (insert_audit (grant_event actor assign_action user role) after) same
                  (Replays-assign actor user_id user role db after same
                    (map_err-ok from_storage (assign_to_user user_id role.id db) after done)
                    replays)))
    ]

nothing_lost :
    (rows : List (ℕ × ℕ)) (user_id id u r : ℕ)
    → holds rows user_id id ≡ false
    → (if user_id == u && id == r then false else holds rows u r) ≡ holds rows u r
nothing_lost rows user_id id u r h = ground (arith, ==_iff user_id u, ==_iff id r)

-- A revocation is logged if it takes something away.
pub Replays-revoked :
    (actor : Actor) (user_id : ℕ) (user : Account) (role : Role) (db : Accounts)
    → any (λ r. r.id == role.id) db.roles ≡ true
    → user.id ≡ user_id
    → Replays db
    → Replays (revoked actor user_id user role db).1
unfolding list_for_user revoke_from_user insert_audit
Replays-revoked actor user_id user role db there same replays u r =
    let listed =
      any-list_for_user user_id role.id db.user_roles db.roles
      ∙ ap (λ b. b && holds db.user_roles user_id role.id) there in
    let gone = holds-filter user_id role.id u r db.user_roles in
    elim (Bool-cases (holds db.user_roles user_id role.id)) [
      | inl e ↦
          rw (revoked, listed ∙ e)
            (gone
              ∙ ap₂ (λ k before. if k == u && role.id == r then false else before) (sym same)
                  (replays u r)
              ∙ sym (log-revoke actor user role db.audit_log u r))
      | inr e ↦
          rw (revoked, listed ∙ e)
            (gone ∙ nothing_lost db.user_roles user_id role.id u r e ∙ replays u r)
    ]
