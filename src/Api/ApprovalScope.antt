-- ===== src/Api/ApprovalScope.antt =====
-- The enum `ApprovalScope` of crates/api/src/config.rs: whose edits wait for a reviewer.

pub data ApprovalScope : Type 0 where
  none : ApprovalScope
  anonymous : ApprovalScope
  new_users : ApprovalScope
  all : ApprovalScope
