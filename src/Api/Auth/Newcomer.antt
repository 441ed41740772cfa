-- ===== src/Api/Auth/Newcomer.antt =====
-- A registration and the login after it, in crates/api/src/auth/routes.rs.
use thewiki.Prelude.{◌∷◌}
use thewiki.Prelude.Result.{Result, ok}
use thewiki.Prelude.Text.{Text, codes}
use thewiki.Storage.Accounts.{Accounts, Account, insert_audit}
use thewiki.Api.Auth.{AuthError, event}

abbrev registered : Account → Accounts → Accounts
registered user db =
    insert_audit (event user (codes "auth.register") (codes "user_id") user.id)
      (record db { users = user ∷ db.users })

abbrev enrolled : Account → Accounts → Result AuthError Account × Accounts
enrolled user db = (ok user, registered user db)
