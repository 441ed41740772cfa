-- ===== src/Render.antt =====
-- crates/render: the template pre-pass.
pub mod Slug
pub mod Template
