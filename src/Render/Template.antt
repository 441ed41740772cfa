-- ===== src/Render/Template.antt =====
-- crates/render/src/template.rs: scanning, arguments, diagnostics and expansion.
pub mod Scan
pub mod Diagnostics
pub mod Frame
pub mod Call
pub mod Expand
pub mod Tests
