-- ===== src/Storage/Namespaces/Tests.antt =====
-- The table of namespaces as the handlers of crates/api/src/namespaces fill it.
use thewiki.Prelude.{◌≡◌, refl, ℕ, some, none, true, false, [], ◌∷◌}
use thewiki.Prelude.Result.{ok}
use thewiki.Prelude.Text.{Text, codes, text_eq}
use thewiki.Core.NamespaceSlug.{new}
use thewiki.Core.Validation.{validate, is_handle_char}
use thewiki.Core.Page.{Namespace}
use thewiki.Storage.Namespaces.{
  Rows, row_by_id, row_by_slug, pair_taken, insert_row_tx, set_pair_tx, build_talk_pair, reuse,
  create, delete,
}
use thewiki.Storage.Namespaces.Pairs.{pair_of}

pairing : Unit {0}
unfolding text_eq new validate is_handle_char row_by_id row_by_slug pair_taken insert_row_tx
    set_pair_tx build_talk_pair reuse create delete pair_of
pairing = tt

abbrev subject : ℕ → Text → Namespace
subject id slug = record {
  id = id;
  slug = slug;
  display_name = slug;
  is_talk = false;
  paired_namespace_id = none;
}

abbrev talk : Namespace
talk = record {
  id = 11;
  slug = codes "Talk_Help";
  display_name = codes "Talk: Help";
  is_talk = true;
  paired_namespace_id = some 1;
}

abbrev help : Rows
help = talk ∷ record (subject 1 (codes "Help")) { paired_namespace_id = some 11 } ∷ []

help_created : create 11 (subject 1 (codes "Help")) [] ≡ ok help
unfolding pairing
help_created = refl

-- The discussion side is left alone when its subject goes, and the subject's successor takes it.
help_again :
    create 12 (subject 2 (codes "Help")) (record talk { paired_namespace_id = none } ∷ [])
    ≡ ok (
        record (subject 2 (codes "Help")) { paired_namespace_id = some 11 }
        ∷ record talk { paired_namespace_id = some 2 }
        ∷ [])
unfolding pairing
help_again = refl

abbrev rogue : Rows
rogue =
    record (subject 3 (codes "Talk_Talk_Help")) { is_talk = true; paired_namespace_id = some 1 }
    ∷ record (subject 1 (codes "Talk_Help")) { paired_namespace_id = some 3 }
    ∷ []
