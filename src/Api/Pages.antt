-- ===== src/Api/Pages.antt =====
-- What the page handlers of crates/api/src/pages/routes.rs share. A handler is a plan, made from
-- reads alone, and the writes that carry it out. An `Env` holds what a request takes from outside:
-- the clock, the fresh ids, the operator's policy and blocklist, the Markdown parser's links.
pub mod Shared
pub mod Handlers
pub mod Create
pub mod Update
pub mod Delete
pub mod Protect
pub mod Revert
use thewiki.Prelude.{ℕ, Option, some, none, Bool, true, false, not, ◌&&◌, List, [], ◌∷◌, ◌++◌}
use thewiki.Prelude.Lists.{any}
use thewiki.Prelude.Result.{Result, ok, err, and_then, map_err}
use thewiki.Prelude.Tests.{◌==◌, if◌then◌else◌}
use thewiki.Prelude.Text.{Text, codes, text_eq, trim}
use thewiki.Core.Page.{Page, Namespace}
use thewiki.Core.Revision.{Revision}
use thewiki.Core.Tag.{new}
use thewiki.Storage.Schema.{Db, StorageError, Json, Metadata, AuditEntry, PageLink}
use thewiki.Storage.Tables.{page_by_slug}
use thewiki.Storage.Pending.{NewPendingRevision, create, count_pending}
use thewiki.Storage.Relations.{replace_links, replace_categories, namespace_by_slug}
use thewiki.Api.Editor.{Editor, ApprovalConfig}
use thewiki.Api.Signature.{expand_signatures_with}
use thewiki.Api.Exec.{
  ApiError, invalid_value, blocklisted, not_found, from_storage, PageDoc, Exec, ◌>>=◌, pure, write,
  query,
}

pub record Env : Type 0 where
  pub now_utc : ℕ
  pub timestamp : Text
  pub fresh_page : ℕ
  pub fresh_revision : ℕ
  pub fresh_pending : ℕ
  pub approval : ApprovalConfig
  pub extract_links : Text → List Text
  pub blocklist_match : Text → Option (Text × Text)

-- A repeated tag is dropped.
abbrev push_new : List Text → Text → List Text
push_new out tag = if any (λ t. text_eq t tag) out then out else out ++ tag ∷ []

unfoldable pub parse_tags : List Text → List Text → Result ApiError (List Text)
parse_tags [] out = ok out
parse_tags (entry ∷ raw) out =
    and_then (map_err (invalid_value (codes "tags")) (new (trim entry)))
      (λ tag. parse_tags raw (push_new out tag))

unfoldable pub parse_tag_list : Option (List Text) → Result ApiError (Option (List Text))
parse_tag_list none = ok none
parse_tag_list (some raw) = and_then (parse_tags raw []) (λ out. ok (some out))

unfoldable pub dedup_ids : List ℕ → List ℕ → List ℕ
dedup_ids [] out = out
dedup_ids (id ∷ list) out = dedup_ids list (if any (λ i. i == id) out then out else out ++ id ∷ [])

unfoldable pub parse_category_list : Option (List ℕ) → Option (List ℕ)
parse_category_list none = none
parse_category_list (some list) = some (dedup_ids list [])

unfoldable pub ensure_body_passes_url_blocklist : Env → Text → Result ApiError (Unit {0})
ensure_body_passes_url_blocklist env body = elim (env.blocklist_match body) [
  | none ↦ ok tt
  | some m ↦ err (blocklisted m.0 m.1)
]

abbrev pub page_label : Namespace → Page → Text
page_label namespace page = namespace.slug ++ (codes "/" ++ page.slug)

unfoldable pub page_event : ℕ → Text → Text → ℕ → Text → Metadata → AuditEntry
page_event actor username event page label data_ = record {
  actor_id = actor;
  actor_username = username;
  action = event;
  target_kind = codes "page";
  target_id = page;
  target_label = some label;
  metadata = data_;
}

unfoldable pub resolve_namespace : Text → Db → Result ApiError Namespace
resolve_namespace slug db = map_err from_storage (namespace_by_slug slug db)

unfoldable pub resolve_page : Namespace → Text → Db → Result ApiError Page
resolve_page namespace slug db = elim (page_by_slug db.pages namespace.id slug) [
  | none ↦ err not_found
  | some page ↦ ok page
]

-- One row for each target that is not blank.
unfoldable pub link_rows : ℕ → Text → List Text → List Text → List PageLink
link_rows source namespace_slug [] seen = []
link_rows source namespace_slug (target ∷ links) seen =
    let first = link_rows source namespace_slug links (target ∷ seen) in
    let others = link_rows source namespace_slug links seen in
    if text_eq (trim target) []
    then others
    else if any (λ t. text_eq t target) seen
    then others
    else record {
      source_page_id = source;
      target_namespace_slug = namespace_slug;
      target_page_slug = target;
    }
      ∷ first

unfoldable pub update_page_links : Env → ℕ → Text → Text → Exec (Unit {0})
update_page_links env page_id namespace_slug body =
    write (replace_links page_id (link_rows page_id namespace_slug (env.extract_links body) []))

unfoldable pub assign_categories : ℕ → Option (List ℕ) → Exec (Unit {0})
assign_categories page_id none = pure tt
assign_categories page_id (some ids) = write (replace_categories page_id ids)

abbrev pub build_search_doc : Page → Namespace → Text → List Text → PageDoc
build_search_doc page namespace text assigned = record {
  page_id = page.id;
  namespace_id = page.namespace_id;
  namespace_slug = namespace.slug;
  slug = page.slug;
  title = page.title;
  body = text;
  tags = assigned;
  updated_at = page.updated_at;
  is_talk = namespace.is_talk;
}

abbrev unwrap_or_empty : Option Text → Text
unwrap_or_empty none = []
unwrap_or_empty (some t) = t

abbrev pub new_row : Revision → Editor → Option Text → NewPendingRevision
new_row revision editor comment_ = record {
  page_id = revision.page_id;
  parent_revision_id = revision.parent_id;
  body = revision.body;
  author_id = if editor.is_anonymous then none else some editor.user_id;
  author_ip = none;
  comment = unwrap_or_empty comment_;
}

-- The result is the row's id and its place in the queue.
unfoldable pub persist_pending : Env → Revision → Editor → Option Text → Exec (ℕ × ℕ)
persist_pending env revision editor comment_ =
    write (create env.fresh_pending env.now_utc (new_row revision editor comment_)) >>= λ made.
    query (λ db. ok (env.fresh_pending, count_pending db))

-- The response, before the page is joined with what the client shows beside it.
pub record Outcome : Type 0 where
  pub status : ℕ
  pub page : Page
  pub queued : Option (ℕ × ℕ)

-- What a plan decides of an edit: the page row as it is to be, or as it was read if the edit waits.
pub record EditPlan : Type 0 where
  pub namespace : Namespace
  pub page : Page
  pub revision : Revision
  pub live : Bool
  pub audit : AuditEntry
  pub summary : Option Text
  pub categories : Option (List ℕ)
  pub tags : Option (List Text)

-- what is signed on a talk page
abbrev pub signed : Env → Editor → Namespace → Text → Text
signed env editor namespace content =
    if namespace.is_talk
    then expand_signatures_with content editor.username env.timestamp
    else content
