-- ===== src/Storage/Categories/Tests.antt =====
-- A small tree of categories.
use thewiki.Prelude.{◌≡◌, refl, map, List, none, some, false, [], ◌∷◌}
use thewiki.Prelude.Lists.{All}
use thewiki.Prelude.Tests.{◌==◌}
use thewiki.Prelude.Result.{ok, err}
use thewiki.Prelude.Text.{codes, text_eq}
use thewiki.Storage.Schema.{not_found}
use thewiki.Storage.Categories.{
  Category, row_by_id, row_by_slug, parent_of, ancestor_ids, create, get_by_id, list_ancestors,
  depth_budget,
}
use thewiki.Storage.Categories.Forest.{IsForest, create-IsForest, list_ancestors-Ends}
use native.Mathlib.Omega.{arith}

sorting : Unit {0}
unfolding text_eq row_by_id row_by_slug parent_of ancestor_ids create get_by_id list_ancestors
sorting = tt

abbrev science : Category
science = record {
  id = 1;
  slug = codes "science";
  display_name = codes "Science";
  parent_id = none;
  created_at = 100;
}

abbrev physics : Category
physics = record science { id = 2; slug = codes "physics"; parent_id = some 1 }

abbrev optics : Category
optics = record science { id = 3; slug = codes "optics"; parent_id = some 2 }

optics_created : create optics (physics ∷ science ∷ []) ≡ ok (optics ∷ physics ∷ science ∷ [])
unfolding sorting
optics_created = refl

no_such_parent : create optics (science ∷ []) ≡ err not_found
unfolding sorting
no_such_parent = refl

two-IsForest : IsForest (physics ∷ science ∷ [])
unfolding sorting
two-IsForest = (refl, (refl, (refl, (tt, tt))))

list_ancestors-Ends_example :
    (out : List Category) × (list_ancestors 3 (optics ∷ physics ∷ science ∷ []) ≡ ok out)
    × (ancestor_ids depth_budget (optics ∷ physics ∷ science ∷ []) 3 ≡ ok (map (λ c. c.id) out))
    × All (λ c. (c.id == 3) ≡ false) out
unfolding sorting
list_ancestors-Ends_example =
    list_ancestors-Ends (optics ∷ physics ∷ science ∷ []) 3 (omega arith)
      (create-IsForest optics (physics ∷ science ∷ []) (optics ∷ physics ∷ science ∷ [])
        optics_created two-IsForest)
      refl
