-- ===== src/Api/Namespaces/Tests.antt =====
-- Runs of the handlers of crates/api/src/namespaces/routes.rs.
use thewiki.Prelude.{◌≡◌, refl, ℕ, some, false, [], ◌∷◌}
use thewiki.Prelude.Result.{ok, err}
use thewiki.Prelude.Text.{codes, text_eq, trim, trim_start, trim_end, drop_while, is_whitespace}
use thewiki.Core.Validation.{validate, is_handle_char}
use thewiki.Core.NamespaceSlug.{new}
use thewiki.Core.Page.{Namespace}
use thewiki.Core.Permissions.{bit_and, contains}
use thewiki.Storage.Namespaces.{
  row_by_id, row_by_slug, pair_taken, insert_row_tx, set_pair_tx, build_talk_pair, reuse, create,
  delete, update_display_name,
}
use thewiki.Storage.Namespaces.Pairs.{pair_of, Paired}
use thewiki.Api.Exec.{forbidden}
use thewiki.Api.Admin.{Actor}
use thewiki.Api.Namespaces.{Tables, create_namespace, update_namespace, delete_namespace}
use thewiki.Api.Namespaces.Pairing.{creates, renames, deletes, serve_all, serve_all-Paired}

abbrev admin : Actor
admin = record { user_id = 1; username = codes "root"; permissions = 256 }

abbrev empty : Tables
empty = record { namespaces = []; pages = []; audit_log = [] }

naming : Unit {0}
unfolding text_eq trim trim_start trim_end drop_while is_whitespace validate is_handle_char new
    bit_and contains row_by_id row_by_slug pair_taken insert_row_tx set_pair_tx build_talk_pair
    reuse create delete update_display_name create_namespace update_namespace delete_namespace
naming = tt

abbrev help : Namespace
help = record {
  id = 1;
  slug = codes "Help";
  display_name = codes "Help pages";
  is_talk = false;
  paired_namespace_id = some 2;
}

help_made : (create_namespace admin 1 2 (codes "Help") (codes "Help pages") empty).0 ≡ ok help
unfolding naming
help_made = refl

not_allowed :
    (delete_namespace (record admin { permissions = 255 }) (codes "Help") empty).0 ≡ err forbidden
unfolding naming
not_allowed = refl

none_paired : (a b : ℕ) → pair_of [] a ≡ some b → pair_of [] b ≡ some a
unfolding pair_of row_by_id
none_paired a b h = cc

serve_all-Paired_example :
    Paired
      (serve_all
        ((admin, creates 1 2 (codes "Help") (codes "Help pages"))
          ∷ (admin, renames (codes "Help") (codes "Manual"))
          ∷ (admin, deletes (codes "Help"))
          ∷ [])
        empty).namespaces
serve_all-Paired_example =
    serve_all-Paired
      ((admin, creates 1 2 (codes "Help") (codes "Help pages"))
        ∷ (admin, renames (codes "Help") (codes "Manual"))
        ∷ (admin, deletes (codes "Help"))
        ∷ [])
      empty (record { distinct = tt; symmetric = none_paired })
