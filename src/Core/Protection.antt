-- ===== src/Core/Protection.antt =====
-- The enum `ProtectionLevel` of crates/core/src/protection.rs.
use thewiki.Prelude.Text.{Text, codes}

pub data ProtectionLevel : Type 0 where
  none : ProtectionLevel
  semi_protected : ProtectionLevel
  protected : ProtectionLevel
  fully_protected : ProtectionLevel

abbrev pub as_str : ProtectionLevel → Text
as_str none = codes "none"
as_str semi_protected = codes "semi_protected"
as_str protected = codes "protected"
as_str fully_protected = codes "fully_protected"
