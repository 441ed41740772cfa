-- ===== src/Api/Editor.antt =====
-- Who edits and what it takes: `check_protection` of crates/api/src/pages/protection.rs,
-- `needs_approval` and `should_queue` of pages/routes.rs, the policy of state.rs and config.rs.
pub mod Gates
use thewiki.Prelude.{ℕ, ◌-◌, ◌*◌, Option, some, none, Bool, true, false}
use thewiki.Prelude.Result.{Result, ok, err}
use thewiki.Prelude.Tests.{ltb, if◌then◌else◌}
use thewiki.Prelude.Text.{Text, codes}
use thewiki.Core.Permissions.{contains, edit, protect}
use thewiki.Core.Protection.{ProtectionLevel, semi_protected, protected, fully_protected}
use thewiki.Api.ApprovalScope.{ApprovalScope, anonymous, new_users, all}
use thewiki.Api.Exec.{ApiError, page_protected}

-- `EditorExtractor`; a `RequireAuth` is one that is not anonymous.
pub record Editor : Type 0 where
  pub user_id : ℕ
  pub is_anonymous : Bool
  pub user_created_at : Option ℕ
  pub username : Text
  pub permissions : ℕ

unfoldable pub check_protection : ProtectionLevel → Bool → ℕ → Result ApiError (Unit {0})
check_protection ProtectionLevel.none is_anonymous permissions = ok tt
check_protection semi_protected is_anonymous permissions =
    if is_anonymous then err (page_protected semi_protected (codes "authenticated")) else ok tt
check_protection protected is_anonymous permissions =
    if contains permissions edit then ok tt else err (page_protected protected (codes "EDIT"))
check_protection fully_protected is_anonymous permissions =
    if contains permissions protect
    then ok tt
    else err (page_protected fully_protected (codes "PROTECT"))

-- The age is a signed duration: an account from the future counts as new.
abbrev is_new : Option ℕ → ℕ → ℕ → Bool
is_new none now_utc window = true
is_new (some created_at) now_utc window = ltb (now_utc - created_at) window

unfoldable pub needs_approval : ApprovalScope → Editor → ℕ → ℕ → Bool
needs_approval ApprovalScope.none editor now_utc window = false
needs_approval anonymous editor now_utc window = editor.is_anonymous
needs_approval new_users editor now_utc window =
    if editor.is_anonymous then true else is_new editor.user_created_at now_utc window
needs_approval all editor now_utc window = true

-- `auth.approval_required_for`, and the two fields of `[moderation.approval]`
pub record ApprovalConfig : Type 0 where
  pub approval_required_for : ApprovalScope
  pub require_approval_for : ApprovalScope
  pub new_user_threshold_days : ℕ

unfoldable pub effective_scope : ApprovalConfig → ApprovalScope
effective_scope config = elim config.require_approval_for [
  | ApprovalScope.none ↦ config.approval_required_for
  | anonymous ↦ anonymous
  | new_users ↦ new_users
  | all ↦ all
]

abbrev pub new_user_window_secs_default : ℕ
new_user_window_secs_default = 24 * 60 * 60

unfoldable pub new_user_window : ℕ → ℕ
new_user_window days =
    if ltb 0 (days * 24 * 60 * 60) then days * 24 * 60 * 60 else new_user_window_secs_default

unfoldable pub should_queue : ApprovalConfig → Editor → ℕ → Bool
should_queue config editor now_utc =
    needs_approval (effective_scope config) editor now_utc
      (new_user_window config.new_user_threshold_days)
