-- ===== src/Api/Editor/Gates.antt =====
-- How the gates on an edit compare.
use thewiki.Prelude.{◌≡◌, refl, ℕ, ◌≤◌, true, arith}
use thewiki.Api.ApprovalScope.{ApprovalScope, anonymous, new_users, all}
use thewiki.Api.Editor.{Editor, needs_approval}

-- how much a scope covers
abbrev pub reach : ApprovalScope → ℕ
reach ApprovalScope.none = 0
reach anonymous = 1
reach new_users = 2
reach all = 3

-- A scope that reaches further holds back every edit that a narrower one holds back.
needs_approval_monotone :
    (narrow wide : ApprovalScope) (editor : Editor) (now_utc window : ℕ)
    → reach narrow ≤ reach wide
    → needs_approval narrow editor now_utc window ≡ true
    → needs_approval wide editor now_utc window ≡ true
unfolding needs_approval
needs_approval_monotone ApprovalScope.none wide editor now_utc window le h = cc
needs_approval_monotone anonymous ApprovalScope.none editor now_utc window le h = ground arith
needs_approval_monotone anonymous anonymous editor now_utc window le h = h
needs_approval_monotone anonymous new_users editor now_utc window le h = rw h
needs_approval_monotone anonymous all editor now_utc window le h = refl
needs_approval_monotone new_users ApprovalScope.none editor now_utc window le h = ground arith
needs_approval_monotone new_users anonymous editor now_utc window le h = ground arith
needs_approval_monotone new_users new_users editor now_utc window le h = h
needs_approval_monotone new_users all editor now_utc window le h = refl
needs_approval_monotone all ApprovalScope.none editor now_utc window le h = ground arith
needs_approval_monotone all anonymous editor now_utc window le h = ground arith
needs_approval_monotone all new_users editor now_utc window le h = ground arith
needs_approval_monotone all all editor now_utc window le h = refl
