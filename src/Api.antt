-- ===== src/Api.antt =====
-- The page workflow of crates/api/src.
pub mod Exec
pub mod ApprovalScope
pub mod Kept
pub mod Editor
pub mod Signature
pub mod Namespaces
pub mod Categories
pub mod RateLimit
pub mod Admin
pub mod Auth
pub mod Config
pub mod Blocklist
pub mod Pages
pub mod PendingRevisions
pub mod History
pub mod Workflow
pub mod Tests
