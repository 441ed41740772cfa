-- ===== src/Api/Admin/Flags/RoundTrip.antt =====
-- That crates/api/src/admin/roles.rs accepts the permissions that it answers.
use thewiki.Prelude.{
  ◌≡◌, refl, ap, ◌∙◌, ℕ, suc, ◌^◌, ◌<◌, Bool, true, false, List, [], ◌∷◌, ◌++◌, map, inl, inr,
}
use thewiki.Prelude.Lists.{All}
use thewiki.Prelude.Result.{ok}
use thewiki.Prelude.Tests.{if◌then◌else◌, Bool-cases}
use thewiki.Prelude.Text.{
  Text, codes, text_eq, trim, trim_start, trim_end, drop_while, is_whitespace, split,
}
use thewiki.Core.Tag.{to_ascii_lowercase}
use thewiki.Core.Permissions.{union, contains, flags}
use thewiki.Core.Permissions.Bits.{low, union-low, low_all}
use thewiki.Storage.Tables.{filter}
use thewiki.Api.Admin.Flags.{
  Flag, held, permission_flags, join, format_permissions, add_tokens, add_raws, parse_permissions,
}
use native.Mathlib.Omega.{arith}

-- A flag's name is read as the flag, alone, after a blank, and before a further part.
abbrev IsRead : Flag → Type 0
IsRead f =
    ((p : ℕ) → add_tokens p (split 124 f.0) ≡ ok (union p f.1))
    × ((p : ℕ) → add_tokens p (split 124 (32 ∷ f.0)) ≡ ok (union p f.1))
    × ((p : ℕ) (rest : Text)
        → add_tokens p (split 124 (f.0 ++ 32 ∷ 124 ∷ rest))
          ≡ add_tokens (union p f.1) (split 124 rest))
    × ((p : ℕ) (rest : Text)
        → add_tokens p (split 124 (32 ∷ (f.0 ++ 32 ∷ 124 ∷ rest)))
          ≡ add_tokens (union p f.1) (split 124 rest))

flags-IsRead : All IsRead flags
unfolding trim trim_start trim_end drop_while is_whitespace text_eq to_ascii_lowercase
flags-IsRead = (
  (λ p. refl, λ p. refl, λ p rest. refl, λ p rest. refl),
  (
    (λ p. refl, λ p. refl, λ p rest. refl, λ p rest. refl),
    (
      (λ p. refl, λ p. refl, λ p rest. refl, λ p rest. refl),
      (
        (λ p. refl, λ p. refl, λ p rest. refl, λ p rest. refl),
        (
          (λ p. refl, λ p. refl, λ p rest. refl, λ p rest. refl),
          (
            (λ p. refl, λ p. refl, λ p rest. refl, λ p rest. refl),
            (
              (λ p. refl, λ p. refl, λ p rest. refl, λ p rest. refl),
              (
                (λ p. refl, λ p. refl, λ p rest. refl, λ p rest. refl),
                (
                  (λ p. refl, λ p. refl, λ p rest. refl, λ p rest. refl),
                  (
                    (λ p. refl, λ p. refl, λ p rest. refl, λ p rest. refl),
                    (
                      (λ p. refl, λ p. refl, λ p rest. refl, λ p rest. refl),
                      ((λ p. refl, λ p. refl, λ p rest. refl, λ p rest. refl), tt),
                    ),
                  ),
                ),
              ),
            ),
          ),
        ),
      ),
    ),
  ),
)

All-filter :
    (P : Flag → Type 0) (p : Flag → Bool) (rows : List Flag) → All P rows → All P (filter p rows)
All-filter P p [] a = a
All-filter P p (f ∷ fs) a = elim (Bool-cases (p f)) [
  | inl e ↦ rw (e) (a.0, All-filter P p fs a.1)
  | inr e ↦ rw (e) (All-filter P p fs a.1)
]

abbrev names : List Flag → List Text
names rows = map (λ f. f.0) rows

abbrev union_all : ℕ → List Flag → ℕ
union_all acc [] = acc
union_all acc (f ∷ fs) = union_all (union acc f.1) fs

add_raws-names :
    (acc : ℕ) (rows : List Flag)
    → All IsRead rows
    → add_raws acc (names rows) ≡ ok (union_all acc rows)
add_raws-names acc [] reads = refl
add_raws-names acc (f ∷ fs) reads = rw (reads.0.0 acc) (add_raws-names (union acc f.1) fs reads.1)

bar : (rest : Text) → codes " | " ++ rest ≡ 32 ∷ 124 ∷ 32 ∷ rest
bar rest = refl

join-cons :
    (f g : Flag) (rows : List Flag)
    → join (codes " | ") (names (f ∷ g ∷ rows))
      ≡ f.0 ++ 32 ∷ 124 ∷ 32 ∷ join (codes " | ") (names (g ∷ rows))
join-cons f g rows = ap (λ t. f.0 ++ t) (bar (join (codes " | ") (names (g ∷ rows))))

add_tokens-blank :
    (acc : ℕ) (f : Flag) (rows : List Flag)
    → All IsRead (f ∷ rows)
    → add_tokens acc (split 124 (32 ∷ join (codes " | ") (names (f ∷ rows))))
      ≡ ok (union_all acc (f ∷ rows))
add_tokens-blank acc f [] reads = reads.0.1 acc
add_tokens-blank acc f (g ∷ rows) reads =
    ap (λ t. add_tokens acc (split 124 (32 ∷ t))) (join-cons f g rows)
    ∙ reads.0.3 acc (32 ∷ join (codes " | ") (names (g ∷ rows)))
    ∙ add_tokens-blank (union acc f.1) g rows reads.1

add_tokens-join :
    (acc : ℕ) (rows : List Flag)
    → All IsRead rows
    → add_tokens acc (split 124 (join (codes " | ") (names rows))) ≡ ok (union_all acc rows)
unfolding trim trim_start trim_end drop_while is_whitespace text_eq
add_tokens-join acc [] reads = refl
add_tokens-join acc (f ∷ []) reads = reads.0.0 acc
add_tokens-join acc (f ∷ g ∷ rows) reads =
    ap (λ t. add_tokens acc (split 124 t)) (join-cons f g rows)
    ∙ reads.0.2 acc (32 ∷ join (codes " | ") (names (g ∷ rows)))
    ∙ add_tokens-blank (union acc f.1) g rows reads.1

-- The flags stand at the bits from one on.
abbrev AtBits : ℕ → List Flag → Type 0
AtBits k [] = Unit
AtBits k (f ∷ fs) = (k < 32) × (f.1 ≡ 2 ^ k) × AtBits (suc k) fs

abbrev bits_after : ℕ → List Flag → ℕ
bits_after k [] = k
bits_after k (f ∷ fs) = bits_after (suc k) fs

flags-AtBits : AtBits 0 flags
flags-AtBits = (
  omega arith,
  refl,
  (
    omega arith,
    refl,
    (
      omega arith,
      refl,
      (
        omega arith,
        refl,
        (
          omega arith,
          refl,
          (
            omega arith,
            refl,
            (
              omega arith,
              refl,
              (
                omega arith,
                refl,
                (
                  omega arith,
                  refl,
                  (omega arith, refl, (omega arith, refl, (omega arith, refl, tt))),
                ),
              ),
            ),
          ),
        ),
      ),
    ),
  ),
)

union_all-if :
    (acc : ℕ) (f : Flag) (rest : List Flag) (is_held : Bool)
    → union_all acc (if is_held then f ∷ rest else rest)
      ≡ union_all (if is_held then union acc f.1 else acc) rest
union_all-if acc f rest true = refl
union_all-if acc f rest false = refl

union_all-low :
    (bits k : ℕ) (rows : List Flag)
    → AtBits k rows
    → union_all (low k bits) (held bits rows) ≡ low (bits_after k rows) bits
union_all-low bits k [] b = refl
union_all-low bits k (f ∷ fs) (small, value, b) =
    union_all-if (low k bits) f (held bits fs) (contains bits f.1)
    ∙ ap (λ acc. union_all acc (held bits fs))
        (ap (λ v. if contains bits v then union (low k bits) v else low k bits) value
          ∙ union-low k bits small)
    ∙ union_all-low bits (suc k) fs b

held_all : (p : ℕ) → p < 4096 → union_all 0 (held p flags) ≡ p
held_all p h = union_all-low p 0 flags flags-AtBits ∙ low_all p h

-- A set of permissions that holds nothing beyond the flags is what is read from the list of its flags'
-- names that an answer gives, and what is read from their one text with bars between them.
pub parse_permissions-held :
    (p : ℕ)
    → p < 4096
    → (parse_permissions (permission_flags p) ≡ ok p)
      × (parse_permissions (format_permissions p ∷ []) ≡ ok p)
parse_permissions-held p h =
    let reads = All-filter IsRead (λ f. contains p f.1) flags flags-IsRead in
    (
      add_raws-names 0 (held p flags) reads ∙ ap ok (held_all p h),
      rw (add_tokens-join 0 (held p flags) reads) (ap ok (held_all p h)),
    )
