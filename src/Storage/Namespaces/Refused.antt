-- ===== src/Storage/Namespaces/Refused.antt =====
-- When `create` of crates/storage/src/sqlite/namespace.rs cannot reuse a row for the discussion side.
use thewiki.Prelude.{ℕ, some, true, ◌++◌}
use thewiki.Prelude.Result.{Result}
use thewiki.Prelude.Text.{Text, codes}
use thewiki.Core.Page.{Namespace}

abbrev talk_side : ℕ → Namespace → Namespace
talk_side fresh_id subject = record {
  id = fresh_id;
  slug = codes "Talk_" ++ subject.slug;
  display_name = codes "Talk: " ++ subject.display_name;
  is_talk = true;
  paired_namespace_id = some subject.id;
}
