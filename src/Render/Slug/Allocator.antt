-- ===== src/Render/Slug/Allocator.antt =====
-- `SlugAllocator` of crates/render/src/slug.rs: the ids of a document's headings, in their order.
use thewiki.Prelude.{◌≡◌, refl, ap, ◌∙◌, ℕ, zero, suc, ◌+◌, ◌/◌, ◌%◌, List, [], ◌∷◌, ◌++◌, inl, inr}
use thewiki.Prelude.Tests.{◌==◌, ltb, if◌then◌else◌, Bool-cases}
use thewiki.Prelude.Text.{Text, codes, text_eq, text_eq_iff}
use thewiki.Render.Slug.{slugify}
use native.Mathlib.Omega.{arith}

-- `Display` of a `usize`; the first number bounds the digits.
abbrev pub digits : ℕ → ℕ → Text
digits zero n = []
digits (suc most) n =
    let rest = digits most (n / 10) in
    if ltb n 10 then (48 + n) ∷ [] else rest ++ (48 + n % 10) ∷ []

-- `HashMap<String, usize>`
abbrev pub Used : Type 0
Used = List (Text × ℕ)

-- What `entry(base).or_insert(0)` reads.
abbrev pub used_of : Used → Text → ℕ
used_of [] base = 0
used_of (entry ∷ used) base =
    let rest = used_of used base in if text_eq entry.0 base then entry.1 else rest

abbrev pub numbered : Text → ℕ → Text
numbered base count = if count == 1 then base else base ++ codes "-" ++ digits count count

-- The id and the counters after it; the newest entry of a key is the one that is read.
unfoldable pub allocate : Text → Used → Text × Used
allocate raw used =
    let base = slugify raw in
    let count = used_of used base + 1 in (numbered base count, (base, count) ∷ used)

abbrev pub allocate_all : List Text → Used → Used
allocate_all [] used = used
allocate_all (raw ∷ titles) used = allocate_all titles (allocate raw used).1

-- The headings whose own slug is `base`.
abbrev pub occurrences : Text → List Text → ℕ
occurrences base [] = 0
occurrences base (raw ∷ titles) =
    let rest = occurrences base titles in if text_eq (slugify raw) base then suc rest else rest

used_of-allocate :
    (base raw : Text) (used : Used)
    → used_of (allocate raw used).1 base
      ≡ (if text_eq (slugify raw) base then used_of used base + 1 else used_of used base)
unfolding allocate
used_of-allocate base raw used = elim (Bool-cases (text_eq (slugify raw) base)) [
  | inl e ↦ rw e (ap (λ b. used_of used b + 1) ((text_eq_iff (slugify raw) base).0 e))
  | inr e ↦ rw e refl
]

used_of-allocate_all :
    (base : Text) (titles : List Text) (used : Used)
    → used_of (allocate_all titles used) base ≡ used_of used base + occurrences base titles
used_of-allocate_all base [] used = omega arith
used_of-allocate_all base (raw ∷ titles) used =
    ground (
      arith,
      used_of-allocate_all base titles (allocate raw used).1,
      used_of-allocate base raw used,
    )

-- After any headings, the next one gets its slug if no heading before has that slug, and otherwise
-- the slug with a dash and one more than the number of those that have.
pub allocate-occurrences :
    (titles : List Text) (raw : Text)
    → (allocate raw (allocate_all titles [])).0
      ≡ numbered (slugify raw) (occurrences (slugify raw) titles + 1)
unfolding allocate
allocate-occurrences titles raw =
    ap (λ n. numbered (slugify raw) (n + 1))
      (used_of-allocate_all (slugify raw) titles [] ∙ omega arith)
