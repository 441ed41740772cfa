-- ===== src/Api/Pages/Update.antt =====
-- `update_page_in_namespace` of crates/api/src/pages/routes.rs.
pub mod Effects
pub mod Queued
pub mod Race
pub mod Live
use thewiki.Prelude.{ℕ, Option, some, none, Bool, true, false, not, List, [], ◌∷◌, ◌++◌}
use thewiki.Prelude.Result.{Result, ok, err, and_then, map_err}
use thewiki.Prelude.Tests.{if◌then◌else◌}
use thewiki.Prelude.Text.{Text, codes, text_eq, trim}
use thewiki.Core.Page.{Page, Namespace}
use thewiki.Core.Revision.{new}
use thewiki.Storage.Schema.{Db, Json, flag, uuid, string, Metadata}
use thewiki.Storage.PageAudit.{commit_page_audit, commit_revision, audit_only}
use thewiki.Storage.Relations.{assign_tags, tags_for_page}
use thewiki.Api.Editor.{Editor, check_protection, should_queue}
use thewiki.Api.Exec.{
  ApiError, invalid_input, from_storage, upsert, Exec, resume, ◌>>=◌, pure, write, query, index,
}
use thewiki.Api.Pages.{
  Env, EditPlan, Outcome, parse_tag_list, parse_category_list, ensure_body_passes_url_blocklist,
  page_label, page_event, resolve_namespace, resolve_page, update_page_links, assign_categories,
  build_search_doc, persist_pending, signed,
}

pub record UpdatePageRequest : Type 0 where
  pub title : Option Text
  pub content : Text
  pub edit_summary : Option Text
  pub categories : Option (List ℕ)
  pub tags : Option (List Text)

unfoldable pub check_title : Option Text → Result ApiError (Option Text)
check_title none = ok none
check_title (some title) =
    if text_eq (trim title) []
    then err (invalid_input (codes "title must not be empty"))
    else ok (some title)

abbrev or_title : Option Text → Text → Text
or_title none old = old
or_title (some title) old = title

abbrev retitled : Bool → Option Text → Text → Bool
retitled live none old = false
retitled live (some title) old = if live then not (text_eq title old) else false

abbrev update_metadata : Env → UpdatePageRequest → Namespace → Page → Bool → Metadata
update_metadata env req namespace page live =
    (codes "namespace", string namespace.slug)
    ∷ (codes "slug", string page.slug)
    ∷ (codes "live", flag live)
    ∷ (codes "title_changed", flag (retitled live req.title page.title))
    ∷ (if live then (codes "revision_id", uuid env.fresh_revision) ∷ [] else [])

unfoldable pub update_plan :
    Env → Editor → UpdatePageRequest → Option (List Text) → Namespace → Page → EditPlan
update_plan env editor req parsed_tags space row =
    let goes_live = not (should_queue env.approval editor env.now_utc) in
    record {
      namespace = space;
      page =
          if goes_live
          then record row {
            title = or_title req.title row.title;
            current_revision_id = some env.fresh_revision;
            updated_at = env.now_utc;
          }
          else row;
      revision =
          new env.fresh_revision env.now_utc row.id row.current_revision_id editor.user_id
            (signed env editor space req.content) req.edit_summary;
      live = goes_live;
      audit =
          page_event editor.user_id editor.username (codes "page.update") row.id
            (page_label space row) (update_metadata env req space row goes_live);
      summary = req.edit_summary;
      categories = parse_category_list req.categories;
      tags = parsed_tags;
    }

-- Everything up to the first write.
unfoldable pub plan_update :
    Env → Editor → Text → Text → UpdatePageRequest → Db → Result ApiError EditPlan
plan_update env editor namespace_slug slug req db = and_then (check_title req.title) (λ title.
    and_then (parse_tag_list req.tags) (λ tags.
      and_then (ensure_body_passes_url_blocklist env req.content) (λ clean.
        and_then (resolve_namespace namespace_slug db) (λ namespace.
          and_then (resolve_page namespace slug db) (λ page.
            and_then (check_protection page.protection_level editor.is_anonymous editor.permissions)
              (λ allowed. ok (update_plan env editor req tags namespace page)))))))

-- Tags that the request leaves out are read back: the index is sent the whole document.
unfoldable pub indexable_tags : ℕ → Option (List Text) → Exec (List Text)
indexable_tags page_id none = query (λ db. map_err from_storage (tags_for_page page_id db))
indexable_tags page_id (some tags) = write (assign_tags page_id tags) >>= λ done. pure tags

-- what follows the commit of a live edit
unfoldable pub publish_rest : Env → EditPlan → Exec (Option (ℕ × ℕ))
publish_rest env plan =
    update_page_links env plan.page.id plan.namespace.slug plan.revision.body >>= λ linked.
    assign_categories plan.page.id plan.categories >>= λ filed.
    indexable_tags plan.page.id plan.tags >>= λ tags.
    index (upsert (build_search_doc plan.page plan.namespace plan.revision.body tags)) >>= λ sent.
    pure none

unfoldable pub publish : Env → EditPlan → Exec (Option (ℕ × ℕ))
publish env plan =
    write (commit_page_audit (commit_revision plan.page plan.revision) plan.audit) >>= λ committed.
    publish_rest env plan

unfoldable pub enqueue : Env → Editor → EditPlan → Exec (Option (ℕ × ℕ))
enqueue env editor plan = write (commit_page_audit audit_only plan.audit) >>= λ logged.
    persist_pending env plan.revision editor plan.summary >>= λ place. pure (some place)

unfoldable pub carry_out_update : Env → Editor → EditPlan → Exec Outcome
carry_out_update env editor plan =
    (if plan.live then publish env plan else enqueue env editor plan) >>= λ place.
    pure (record { status = if plan.live then 200 else 202; page = plan.page; queued = place })

unfoldable pub update_page_in_namespace :
    Env → Editor → Text → Text → UpdatePageRequest → Exec Outcome
update_page_in_namespace env editor namespace_slug slug req w =
    resume (plan_update env editor namespace_slug slug req w.db) w (carry_out_update env editor)
