-- ===== src/Api/Pages/Create.antt =====
-- `create_page_in_namespace` of crates/api/src/pages/routes.rs.
use thewiki.Prelude.{ℕ, Option, some, none, Bool, not, List, [], ◌∷◌}
use thewiki.Prelude.Result.{Result, ok, err, and_then}
use thewiki.Prelude.Tests.{if◌then◌else◌}
use thewiki.Prelude.Text.{Text, codes, text_eq, trim}
use thewiki.Core.Page.{Page, Namespace, markdown}
use thewiki.Core.Protection.{ProtectionLevel}
use thewiki.Core.Revision.{new}
use thewiki.Storage.Schema.{Db, flag, uuid, string, Metadata}
use thewiki.Storage.PageAudit.{commit_page_audit, create_page}
use thewiki.Storage.Relations.{assign_tags}
use thewiki.Api.Editor.{Editor, should_queue}
use thewiki.Api.Exec.{ApiError, invalid_input, upsert, Exec, resume, ◌>>=◌, pure, write, index}
use thewiki.Api.Pages.{
  Env, EditPlan, Outcome, parse_tag_list, parse_category_list, ensure_body_passes_url_blocklist,
  page_label, page_event, resolve_namespace, update_page_links, assign_categories, build_search_doc,
  persist_pending, signed,
}

pub record CreatePageRequest : Type 0 where
  pub slug : Text
  pub title : Text
  pub content : Text
  pub categories : Option (List ℕ)
  pub tags : Option (List Text)

-- a field that must not be blank
abbrev pub required : Text → Text → Result ApiError (Unit {0})
required message value = if text_eq (trim value) [] then err (invalid_input message) else ok tt

abbrev create_metadata : Env → CreatePageRequest → Namespace → Bool → Metadata
create_metadata env req namespace live =
    (codes "namespace", string namespace.slug)
    ∷ (codes "slug", string req.slug)
    ∷ (codes "live", flag live)
    ∷ (if live then (codes "revision_id", uuid env.fresh_revision) ∷ [] else [])

abbrev new_page : Env → CreatePageRequest → Namespace → Bool → Page
new_page env req namespace live = record {
  id = env.fresh_page;
  namespace_id = namespace.id;
  slug = req.slug;
  title = req.title;
  current_revision_id = if live then some env.fresh_revision else none;
  content_format = markdown;
  protection_level = ProtectionLevel.none;
  created_at = env.now_utc;
  updated_at = env.now_utc;
}

unfoldable pub create_plan :
    Env → Editor → CreatePageRequest → Option (List Text) → Namespace → EditPlan
create_plan env editor req parsed_tags space =
    let goes_live = not (should_queue env.approval editor env.now_utc) in
    record {
      namespace = space;
      page = new_page env req space goes_live;
      revision =
          new env.fresh_revision env.now_utc env.fresh_page none editor.user_id
            (signed env editor space req.content) none;
      live = goes_live;
      audit =
          page_event editor.user_id editor.username (codes "page.create") env.fresh_page
            (page_label space (new_page env req space goes_live))
            (create_metadata env req space goes_live);
      summary = none;
      categories = parse_category_list req.categories;
      tags = parsed_tags;
    }

unfoldable pub plan_create : Env → Editor → Text → CreatePageRequest → Db → Result ApiError EditPlan
plan_create env editor namespace_slug req db =
    and_then (required (codes "slug must not be empty") req.slug) (λ slug.
      and_then (required (codes "title must not be empty") req.title) (λ title.
        and_then (parse_tag_list req.tags) (λ tags.
          and_then (ensure_body_passes_url_blocklist env req.content) (λ clean.
            and_then (resolve_namespace namespace_slug db)
              (λ namespace. ok (create_plan env editor req tags namespace))))))

unfoldable pub assigned_tags : ℕ → Option (List Text) → Exec (List Text)
assigned_tags page_id none = pure []
assigned_tags page_id (some tags) = write (assign_tags page_id tags) >>= λ done. pure tags

unfoldable pub publish_new : Env → EditPlan → Exec (Option (ℕ × ℕ))
publish_new env plan =
    write (commit_page_audit (create_page plan.page (some plan.revision)) plan.audit) >>= λ made.
    update_page_links env plan.page.id plan.namespace.slug plan.revision.body >>= λ linked.
    assign_categories plan.page.id plan.categories >>= λ filed.
    assigned_tags plan.page.id plan.tags >>= λ tags.
    index (upsert (build_search_doc plan.page plan.namespace plan.revision.body tags)) >>= λ sent.
    pure none

unfoldable pub enqueue_new : Env → Editor → EditPlan → Exec (Option (ℕ × ℕ))
enqueue_new env editor plan =
    write (commit_page_audit (create_page plan.page none) plan.audit) >>= λ made.
    persist_pending env plan.revision editor none >>= λ place. pure (some place)

unfoldable pub carry_out_create : Env → Editor → EditPlan → Exec Outcome
carry_out_create env editor plan =
    (if plan.live then publish_new env plan else enqueue_new env editor plan) >>= λ place.
    pure (record { status = if plan.live then 201 else 202; page = plan.page; queued = place })

unfoldable pub create_page_in_namespace : Env → Editor → Text → CreatePageRequest → Exec Outcome
create_page_in_namespace env editor namespace_slug req w =
    resume (plan_create env editor namespace_slug req w.db) w (carry_out_create env editor)
