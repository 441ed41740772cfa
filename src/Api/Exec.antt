-- ===== src/Api/Exec.antt =====
-- Errors and state of the handlers: crates/api/src/error.rs, and the storage beside the search
-- index of state.rs. Each storage call is a transaction of its own, so an error keeps what earlier
-- calls have written. An error's text keeps its parts.
pub mod Keeps
use thewiki.Prelude.{ℕ, Bool, List, ◌∷◌}
use thewiki.Prelude.Result.{Result, ok, err}
use thewiki.Prelude.Text.{Text}
use thewiki.Core.Validation.{ValidationError}
use thewiki.Core.Protection.{ProtectionLevel}
use thewiki.Storage.Schema.{Db, StorageError}

pub data ApiError : Type 0 where
  not_found : ApiError
  conflict : Text → ApiError
  invalid_input : Text → ApiError
  invalid_value : (field : Text) → ValidationError → ApiError
  blocklisted : (url pattern : Text) → ApiError
  forbidden : ApiError
  page_protected : ProtectionLevel → (required : Text) → ApiError
  internal : ApiError

-- `From<StorageError>`
abbrev pub from_storage : StorageError → ApiError
from_storage StorageError.not_found = not_found
from_storage (StorageError.conflict message) = conflict message
from_storage StorageError.database = internal
from_storage (StorageError.invalid_input message) = invalid_input message

pub record PageDoc : Type 0 where
  pub page_id : ℕ
  pub namespace_id : ℕ
  pub namespace_slug : Text
  pub slug : Text
  pub title : Text
  pub body : Text
  pub tags : List Text
  pub updated_at : ℕ
  pub is_talk : Bool

-- what the indexer is sent
pub data SearchOp : Type 0 where
  upsert : PageDoc → SearchOp
  delete : ℕ → SearchOp

pub record World : Type 0 where
  pub db : Db
  pub search : List SearchOp

abbrev pub Exec : Type 0 → Type 0
Exec A = World → Result ApiError A × World

abbrev pub resume :
    {A B : Type 0} → Result ApiError A → World → (A → Exec B) → Result ApiError B × World
resume (ok a) w f = f a w
resume (err e) w f = (err e, w)

infixl 5 ◌>>=◌
unfoldable pub ◌>>=◌ : {A B : Type 0} → Exec A → (A → Exec B) → Exec B
◌>>=◌ m f w = resume (m w).0 (m w).1 f

unfoldable pub pure : {A : Type 0} → A → Exec A
pure a w = (ok a, w)

abbrev pub stored : Result StorageError Db → World → Result ApiError (Unit {0}) × World
stored (ok db) w = (ok tt, record w { db = db })
stored (err e) w = (err (from_storage e), w)

unfoldable pub write : (Db → Result StorageError Db) → Exec (Unit {0})
write f w = stored (f w.db) w

unfoldable pub query : {A : Type 0} → (Db → Result ApiError A) → Exec A
query f w = (f w.db, w)

unfoldable pub index : SearchOp → Exec (Unit {0})
index op w = (ok tt, record w { search = op ∷ w.search })

abbrev pub kept : {A : Type 0} → Result StorageError (A × Db) → World → Result ApiError A × World
kept (ok (a, db)) w = (ok a, record w { db = db })
kept (err e) w = (err (from_storage e), w)

unfoldable pub transact : {A : Type 0} → (Db → Result StorageError (A × Db)) → Exec A
transact f w = kept (f w.db) w

-- `let _ =`
unfoldable pub attempt : Exec (Unit {0}) → Exec (Unit {0})
attempt m w = (ok tt, (m w).1)
