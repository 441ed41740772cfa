-- ===== src/Api/Exec/Keeps.antt =====
-- A property of the tables that an action keeps, whether it succeeds or fails.
use thewiki.Prelude.{◌≡◌, refl, ap, Bool, true, false}
use thewiki.Prelude.Result.{Result, ok, err, ok-injective}
use thewiki.Prelude.Tests.{if◌then◌else◌}
use thewiki.Storage.Schema.{Db, StorageError}
use thewiki.Api.Exec.{
  ApiError, SearchOp, World, Exec, resume, ◌>>=◌, pure, stored, write, query, index, kept, transact,
  attempt,
}

module _ (P : Db → Type 0) where
  abbrev pub Keeps : {A : Type 0} → Exec A → Type 0
  Keeps m = (w : World) → P w.db → P (m w).1.db

  pub resume-Keeps :
      {A B : Type 0} (r : Result ApiError A) (w : World) (f : A → Exec B)
      → P w.db
      → ((a : A) → r ≡ ok a → P (f a w).1.db)
      → P (resume r w f).1.db
  resume-Keeps (ok a) w f p k = k a refl
  resume-Keeps (err e) w f p k = p

  pub bind-runs :
      {A B : Type 0} (m : Exec A) (f : A → Exec B) (w : World)
      → P (m w).1.db
      → ((a : A) → (m w).0 ≡ ok a → P (f a (m w).1).1.db)
      → P ((m >>= f) w).1.db
  unfolding ◌>>=◌
  bind-runs m f w p k = resume-Keeps (m w).0 (m w).1 f p k

  pub bind-Keeps :
      {A B : Type 0} (m : Exec A) (f : A → Exec B)
      → Keeps m
      → ((a : A) → Keeps (f a))
      → Keeps (m >>= f)
  bind-Keeps m f km kf w p = bind-runs m f w (km w p) (λ a e. kf a (m w).1 (km w p))

  -- The first step from this state, the rest from any.
  pub then-Keeps :
      {A B : Type 0} (m : Exec A) (f : A → Exec B) (w : World)
      → P (m w).1.db
      → ((a : A) → Keeps (f a))
      → P ((m >>= f) w).1.db
  then-Keeps m f w p k = bind-runs m f w p (λ a e. k a (m w).1 p)

  pub pure-Keeps : {A : Type 0} (a : A) → Keeps (pure a)
  unfolding pure
  pure-Keeps a w p = p

  pub query-Keeps : {A : Type 0} (f : Db → Result ApiError A) → Keeps (query f)
  unfolding query
  query-Keeps f w p = p

  pub index-Keeps : (op : SearchOp) → Keeps (index op)
  unfolding index
  index-Keeps op w p = p

  stored-Keeps :
      (r : Result StorageError Db) (w : World)
      → P w.db
      → ((out : Db) → r ≡ ok out → P out)
      → P (stored r w).1.db
  stored-Keeps (ok db) w p k = k db refl
  stored-Keeps (err e) w p k = p

  pub write-runs :
      (f : Db → Result StorageError Db) (w : World)
      → P w.db
      → ((out : Db) → f w.db ≡ ok out → P out)
      → P (write f w).1.db
  unfolding write
  write-runs f w p k = stored-Keeps (f w.db) w p k

  pub write-Keeps :
      (f : Db → Result StorageError Db)
      → ((db out : Db) → f db ≡ ok out → P db → P out)
      → Keeps (write f)
  write-Keeps f k w p = write-runs f w p (λ out e. k w.db out e p)

  kept-Keeps :
      {A : Type 0} (r : Result StorageError (A × Db)) (w : World)
      → P w.db
      → ((a : A) (out : Db) → r ≡ ok (a, out) → P out)
      → P (kept r w).1.db
  kept-Keeps (ok (a, db)) w p k = k a db refl
  kept-Keeps (err e) w p k = p

  pub transact-Keeps :
      {A : Type 0} (f : Db → Result StorageError (A × Db))
      → ((db out : Db) (a : A) → f db ≡ ok (a, out) → P db → P out)
      → Keeps (transact f)
  unfolding transact
  transact-Keeps f k w p = kept-Keeps (f w.db) w p (λ a out e. k w.db out a e p)

  pub attempt-Keeps : (m : Exec (Unit {0})) → Keeps m → Keeps (attempt m)
  unfolding attempt
  attempt-Keeps m k w p = k w p

  pub if-Keeps :
      {A : Type 0} (b : Bool) (m n : Exec A) → Keeps m → Keeps n → Keeps (if b then m else n)
  if-Keeps true m n km kn = km
  if-Keeps false m n km kn = kn

kept-ok :
    {A : Type 0} (r : Result StorageError (A × Db)) (w : World) (a : A)
    → (kept r w).0 ≡ ok a
    → r ≡ ok (a, (kept r w).1.db)
kept-ok (ok (b, db)) w a e = ap (λ z. ok (z, db)) (ok-injective _ _ e)
kept-ok (err e) w a h = cc

pub transact-ok :
    {A : Type 0} (f : Db → Result StorageError (A × Db)) (w : World) (a : A)
    → (transact f w).0 ≡ ok a
    → f w.db ≡ ok (a, (transact f w).1.db)
unfolding transact
transact-ok f w a e = kept-ok (f w.db) w a e

pub resume-ok :
    {A B : Type 0} (r : Result ApiError A) (w : World) (f : A → Exec B) (b : B)
    → (resume r w f).0 ≡ ok b
    → (a : A) × (r ≡ ok a) × (resume r w f ≡ f a w)
resume-ok (ok a) w f b h = (a, refl, refl)
resume-ok (err e) w f b h = cc

-- An action that succeeds has succeeded in its first step.
pub bind-ok :
    {A B : Type 0} (m : Exec A) (f : A → Exec B) (w : World) (b : B)
    → ((m >>= f) w).0 ≡ ok b
    → (a : A) × ((m w).0 ≡ ok a) × ((m >>= f) w ≡ f a (m w).1)
unfolding ◌>>=◌
bind-ok m f w b h = resume-ok (m w).0 (m w).1 f b h

stored-ok :
    (r : Result StorageError Db) (w : World) (u : Unit {0})
    → (stored r w).0 ≡ ok u
    → r ≡ ok (stored r w).1.db
stored-ok (ok db) w u h = refl
stored-ok (err e) w u h = cc

pub write-ok :
    (f : Db → Result StorageError Db) (w : World) (u : Unit {0})
    → (write f w).0 ≡ ok u
    → f w.db ≡ ok (write f w).1.db
unfolding write
write-ok f w u h = stored-ok (f w.db) w u h
