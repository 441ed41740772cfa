-- ===== src/Core/Revision.antt =====
-- `Revision` of crates/core/src/revision.rs. The id and the time that `Revision::new` takes from
-- the system are arguments.
use thewiki.Prelude.{ℕ, Option}
use thewiki.Prelude.Text.{Text}

pub record Revision : Type 0 where
  pub id : ℕ
  pub page_id : ℕ
  pub parent_id : Option ℕ
  pub author_id : ℕ
  pub body : Text
  pub edit_summary : Option Text
  pub created_at : ℕ

abbrev pub new : ℕ → ℕ → ℕ → Option ℕ → ℕ → Text → Option Text → Revision
new fresh_id now_utc page parent author text summary = record {
  id = fresh_id;
  page_id = page;
  parent_id = parent;
  author_id = author;
  body = text;
  edit_summary = summary;
  created_at = now_utc;
}
