-- ===== src/Core.antt =====
-- The domain types of crates/core/src.
pub mod Validation
pub mod Username
pub mod EmailAddress
pub mod NamespaceSlug
pub mod RoleName
pub mod Tag
pub mod Permissions
pub mod Protection
pub mod Page
pub mod Revision
pub mod PendingRevision
pub mod Tests
