-- ===== src/Render/Slug/Tests.antt =====
-- Ids of headings, after the tests of crates/render/src/slug.rs.
use thewiki.Prelude.{◌≡◌, refl, [], ◌∷◌}
use thewiki.Prelude.Text.{codes, is_whitespace, text_eq}
use thewiki.Render.Slug.{mapped, slugify}
use thewiki.Render.Slug.Allocator.{allocate, allocate_all, allocate-occurrences}
use thewiki.Render.Slug.Shape.{IsAnchor, slugify-IsAnchor}

slugging : Unit {0}
unfolding is_whitespace text_eq mapped slugify allocate
slugging = tt

collapses : slugify (codes "a  b\t c") ≡ codes "a-b-c"
unfolding slugging
collapses = refl

trims : slugify (codes "-leading-") ≡ codes "leading"
unfolding slugging
trims = refl

falls_back : slugify (codes "!!! ???") ≡ codes "section"
unfolding slugging
falls_back = refl

slugify-IsAnchor_example : IsAnchor (slugify (codes "-Hello,  World_2!-"))
slugify-IsAnchor_example = slugify-IsAnchor (codes "-Hello,  World_2!-")

-- A heading that spells another's number gets that one's id.
same_id :
    (allocate (codes "Foo 2") (allocate_all (codes "Foo" ∷ codes "Foo" ∷ []) [])).0
    ≡ (allocate (codes "Foo") (allocate_all (codes "Foo" ∷ []) [])).0
unfolding slugging
same_id = refl

allocate-occurrences_example :
    (allocate
      (codes "Hello World")
      (allocate_all (codes "Hello World" ∷ codes "Other" ∷ codes "hello world!" ∷ []) [])).0
    ≡ codes "hello-world-3"
unfolding slugging
allocate-occurrences_example =
    allocate-occurrences (codes "Hello World" ∷ codes "Other" ∷ codes "hello world!" ∷ [])
      (codes "Hello World")
