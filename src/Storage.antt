-- ===== src/Storage.antt =====
-- The sqlite backend of crates/storage/src.
pub mod Schema
pub mod Pagination
pub mod Namespaces
pub mod Categories
pub mod Accounts
pub mod Blocklists
pub mod Tables
pub mod PageAudit
pub mod Pending
pub mod Relations
pub mod Tags
pub mod Untouched
pub mod Tests
