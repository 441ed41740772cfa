-- ===== src/Api/Categories/Tests.antt =====
-- Runs of the handlers of crates/api/src/categories/routes.rs.
use thewiki.Prelude.{◌≡◌, refl, map, none, some, true, [], ◌∷◌}
use thewiki.Prelude.Result.{ok, err}
use thewiki.Prelude.Text.{codes, text_eq, trim, trim_start, trim_end, drop_while, is_whitespace}
use thewiki.Storage.Categories.{
  row_by_id, row_by_slug, parent_of, ancestor_ids, create, get_by_slug, list_all, list_children,
}
use thewiki.Api.Exec.{not_found, conflict}
use thewiki.Api.Editor.{Editor}
use thewiki.Api.Categories.{
  CategoryView, Call, create_category, list_categories, get_category, serve, serve_all,
}
use thewiki.Api.Categories.WellFormed.{WellFormed, serve_all-WellFormed}
use thewiki.Api.Categories.Found.{create_category-get_category}

sorting : Unit {0}
unfolding text_eq trim trim_start trim_end drop_while is_whitespace row_by_id row_by_slug parent_of
    ancestor_ids create get_by_slug list_all list_children create_category list_categories
    get_category
sorting = tt

abbrev somebody : Editor
somebody = record {
  user_id = 1;
  is_anonymous = true;
  user_created_at = none;
  username = codes "anonymous";
  permissions = 3;
}

abbrev science : Call
science = record {
  editor = somebody;
  fresh_id = 1;
  now = 100;
  req = record { slug = codes " science "; display_name = codes "Science"; parent_id = none };
}

abbrev arts : Call
arts = record science {
  fresh_id = 2;
  req = record { slug = codes "arts"; display_name = codes " Arts"; parent_id = some 1 };
}

abbrev shown : CategoryView
shown = record {
  id = 1;
  slug = codes "science";
  display_name = codes "Science";
  parent_id = none;
  created_at = 100;
}

science_made : (create_category somebody 1 100 science.req []).0 ≡ ok shown
unfolding sorting
science_made = refl

in_order : map (λ c. c.id) (list_categories (serve_all (science ∷ arts ∷ []) [])) ≡ 2 ∷ 1 ∷ []
unfolding sorting
in_order = refl

below_science :
    map (λ c. c.id) (list_children (some 1) (serve_all (science ∷ arts ∷ []) [])) ≡ 2 ∷ []
unfolding sorting
below_science = refl

taken :
    (create_category somebody 3 100 science.req (serve science [])).0
    ≡ err (conflict (codes "category slug already in use"))
unfolding sorting
taken = refl

no_such_parent : (create_category somebody 2 100 arts.req []).0 ≡ err not_found
unfolding sorting
no_such_parent = refl

serve_all-WellFormed_example : WellFormed (serve_all (science ∷ arts ∷ science ∷ []) [])
serve_all-WellFormed_example =
    serve_all-WellFormed (science ∷ arts ∷ science ∷ []) []
      (record { forest = tt; own_slugs = tt; presentable = tt })

create_category-get_category_example :
    get_category (codes "science") (serve_all (arts ∷ science ∷ []) (serve science [])) ≡ ok shown
create_category-get_category_example =
    create_category-get_category science shown (arts ∷ science ∷ []) [] science_made
