-- ===== src/Api/Namespaces.antt =====
-- The handlers of crates/api/src/namespaces/routes.rs over the table of Storage/Namespaces, the pages
-- and the audit log. The views that they answer are left out.
pub mod Pairing
pub mod Tests
use thewiki.Prelude.{ℕ, Option, some, none, Bool, true, false, List, [], ◌∷◌}
use thewiki.Prelude.Lists.{any}
use thewiki.Prelude.Result.{Result, ok, err, and_then, map_err}
use thewiki.Prelude.Tests.{◌==◌, if◌then◌else◌}
use thewiki.Prelude.Text.{Text, codes, text_eq, trim}
use thewiki.Core.NamespaceSlug.{new}
use thewiki.Core.Page.{Namespace, Page}
use thewiki.Core.Permissions.{manage_namespaces}
use thewiki.Storage.Schema.{AuditEntry, Metadata, string}
use thewiki.Storage.Namespaces.{Rows, row_by_id, row_by_slug, create, delete, update_display_name}
use thewiki.Api.Exec.{ApiError, not_found, conflict, invalid_input, invalid_value, from_storage}
use thewiki.Api.Admin.{Actor, ensure, attempt}

pub record Tables : Type 0 where
  pub namespaces : Rows
  pub pages : List Page
  pub audit_log : List AuditEntry

abbrev pub parse_slug : Text → Result ApiError Text
parse_slug raw = map_err (invalid_value (codes "slug")) (new raw)

abbrev pub namespace_event : Actor → Text → Namespace → Metadata → AuditEntry
namespace_event actor action namespace metadata = record {
  actor_id = actor.user_id;
  actor_username = actor.username;
  action = action;
  target_kind = codes "namespace";
  target_id = namespace.id;
  target_label = some namespace.slug;
  metadata = metadata;
}

abbrev pub logged : AuditEntry → Tables → Tables
logged entry db = record db { audit_log = entry ∷ db.audit_log }

abbrev pub found : Option Namespace → Result ApiError Namespace
found none = err not_found
found (some namespace) = ok namespace

abbrev pub get_by_slug : Text → Tables → Result ApiError Namespace
get_by_slug slug db = and_then (parse_slug slug) (λ slug. found (row_by_slug db.namespaces slug))

abbrev pub display_name_given : Text → Result ApiError (Unit {0})
display_name_given display_name =
    if text_eq (trim display_name) []
    then err (invalid_input (codes "display_name must not be empty"))
    else ok tt

abbrev pub slug_and_name : Namespace → Metadata
slug_and_name namespace =
    (codes "slug", string namespace.slug)
    ∷ (codes "display_name", string namespace.display_name)
    ∷ []

abbrev pub with_rows : Rows → Tables → Tables
with_rows rows db = record db { namespaces = rows }

-- The row is read again, for the pair that it got.
abbrev pub created : Actor → ℕ → Tables → Result ApiError Namespace × Tables
created actor id db = attempt (found (row_by_id db.namespaces id)) db (λ namespace. (
  ok namespace,
  logged (namespace_event actor (codes "namespace.create") namespace (slug_and_name namespace)) db,
))

abbrev pub subject_of : ℕ → Text → Text → Namespace
subject_of id slug display_name = record {
  id = id;
  slug = slug;
  display_name = display_name;
  is_talk = false;
  paired_namespace_id = none;
}

-- The ids are those that the namespace and its discussion side get.
unfoldable pub create_namespace :
    Actor
    → (id talk_id : ℕ) → (slug display_name : Text) → Tables
    → Result ApiError Namespace × Tables
create_namespace actor id talk_id slug display_name db =
    attempt (ensure manage_namespaces actor) db (λ _.
      attempt (display_name_given display_name) db (λ _. attempt (parse_slug slug) db (λ slug.
        attempt
          (map_err from_storage (create talk_id (subject_of id slug display_name) db.namespaces)) db
          (λ rows. created actor id (with_rows rows db)))))

abbrev pub renamed : Actor → Namespace → Text → Tables → Result ApiError (Unit {0}) × Tables
renamed actor namespace display_name db = (
  ok tt,
  logged
      (namespace_event actor (codes "namespace.update") namespace (
        (codes "slug", string namespace.slug)
        ∷ (codes "from", string namespace.display_name)
        ∷ (codes "to", string display_name)
        ∷ []))
      db,
)

unfoldable pub update_namespace :
    Actor → (slug display_name : Text) → Tables → Result ApiError (Unit {0}) × Tables
update_namespace actor slug display_name db = attempt (ensure manage_namespaces actor) db (λ _.
    attempt (display_name_given display_name) db (λ _.
      attempt (get_by_slug slug db) db (λ namespace.
        attempt (map_err from_storage (update_display_name namespace.id display_name db.namespaces))
          db (λ rows. renamed actor namespace display_name (with_rows rows db)))))

abbrev pub without_pages : Namespace → Tables → Result ApiError (Unit {0})
without_pages namespace db =
    if any (λ p. p.namespace_id == namespace.id) db.pages
    then err (conflict (codes "namespace still contains pages; move them before deleting"))
    else ok tt

abbrev pub deleted : Actor → Namespace → Tables → Result ApiError (Unit {0}) × Tables
deleted actor namespace db = (
  ok tt,
  logged (namespace_event actor (codes "namespace.delete") namespace (slug_and_name namespace)) db,
)

unfoldable pub delete_namespace : Actor → Text → Tables → Result ApiError (Unit {0}) × Tables
delete_namespace actor slug db = attempt (ensure manage_namespaces actor) db (λ _.
    attempt (get_by_slug slug db) db (λ namespace. attempt (without_pages namespace db) db (λ _.
      attempt (map_err from_storage (delete namespace.id db.pages db.namespaces)) db
        (λ rows. deleted actor namespace (with_rows rows db)))))
