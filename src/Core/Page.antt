-- ===== src/Core/Page.antt =====
-- `Page` and `Namespace` of crates/core/src/page.rs and namespace.rs. An id is a number; a time is
-- a number of seconds, after the epoch.
use thewiki.Prelude.{ℕ, Option, Bool}
use thewiki.Prelude.Text.{Text}
use thewiki.Core.Protection.{ProtectionLevel}

pub data ContentFormat : Type 0 where
  markdown : ContentFormat

pub record Page : Type 0 where
  pub id : ℕ
  pub namespace_id : ℕ
  pub slug : Text
  pub title : Text
  pub current_revision_id : Option ℕ
  pub content_format : ContentFormat
  pub protection_level : ProtectionLevel
  pub created_at : ℕ
  pub updated_at : ℕ

pub record Namespace : Type 0 where
  pub id : ℕ
  pub slug : Text
  pub display_name : Text
  pub is_talk : Bool
  pub paired_namespace_id : Option ℕ
