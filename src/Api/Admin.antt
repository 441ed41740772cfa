-- ===== src/Api/Admin.antt =====
-- crates/api/src/admin: what roles.rs and users.rs share. The text of an error that is formatted keeps
-- its parts, and the number of a role's holders is left out of its.
pub mod Flags
pub mod Roles
pub mod Users
pub mod Replay
pub mod History
pub mod Removal
pub mod Revocation
pub mod Tests
use thewiki.Prelude.{◌≡◌, refl, ℕ}
use thewiki.Prelude.Result.{Result, ok, err}
use thewiki.Prelude.Tests.{if◌then◌else◌}
use thewiki.Prelude.Text.{Text}
use thewiki.Core.Permissions.{contains}
use thewiki.Api.Exec.{ApiError, forbidden}

-- `RequireAuth`
pub record Actor : Type 0 where
  pub user_id : ℕ
  pub username : Text
  pub permissions : ℕ

abbrev pub ensure : ℕ → Actor → Result ApiError (Unit {0})
ensure flag actor = if contains actor.permissions flag then ok tt else err forbidden

-- `?` in a handler: an error ends it with the tables as they are.
abbrev pub attempt :
    {S A B : Type 0} → Result ApiError A → S → (A → Result ApiError B × S) → Result ApiError B × S
attempt (err e) db next = (err e, db)
attempt (ok a) db next = next a

-- What holds of the tables before a handler and after each of its ends holds after it.
pub attempt-keeps :
    {S A B : Type 0} (P : S → Type 0) (r : Result ApiError A) (db : S)
    (next : A → Result ApiError B × S)
    → P db
    → ((a : A) → r ≡ ok a → P (next a).1)
    → P (attempt r db next).1
attempt-keeps P (err e) db next p q = p
attempt-keeps P (ok a) db next p q = q a refl
