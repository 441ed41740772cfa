-- ===== src/Api/Auth/Credentials.antt =====
-- Who the login of crates/api/src/auth/routes.rs lets in, and what its comparison with the hash of the
-- empty password may not change.
use thewiki.Prelude.{Option, some, none, Bool}
use thewiki.Prelude.Result.{Result, ok, err}
use thewiki.Prelude.Tests.{if◌then◌else◌}
use thewiki.Prelude.Text.{Text}
use thewiki.Storage.Accounts.{Accounts, Account}
use thewiki.Api.Auth.{AuthError, invalid_credentials}

-- The test without the comparison that stands for a missing one.
abbrev pub known_by : (Text → Bool) → Option Account → Result AuthError Account
known_by matches none = err invalid_credentials
known_by matches (some user) = elim user.password_hash [
  | none ↦ err invalid_credentials
  | some hash ↦ if matches hash then ok user else err invalid_credentials
]
