-- ===== src/Core/Permissions/Bits.antt =====
-- The bits that `contains` and `|` of crates/core/src/permissions.rs read and write, one at a time.
use thewiki.Prelude.{◌≡◌, refl, sym, ◌∙◌, ℕ, zero, suc, ◌+◌, ◌*◌, ◌/◌, ◌%◌, ◌^◌, ◌<◌, inl, inr, ◌⊎◌}
use thewiki.Prelude.Tests.{◌==◌, ==_iff, ==_refl, if◌then◌else◌, Bool-cases}
use thewiki.Core.Permissions.{bit_and, bit_or, union, contains}
use native.Mathlib.Omega.{arith}

-- What a bit is worth in the number
abbrev pub weight : ℕ → ℕ → ℕ
weight zero b = b % 2
weight (suc k) b = 2 * weight k (b / 2)

-- The number of the lowest bits
abbrev pub low : ℕ → ℕ → ℕ
low zero b = 0
low (suc k) b = b % 2 + 2 * low k (b / 2)

pow_suc : (k : ℕ) → 2 ^ suc k ≡ 2 * 2 ^ k
pow_suc k = omega arith

weight-cases : (k b : ℕ) → (weight k b ≡ 0) ⊎ (weight k b ≡ 2 ^ k)
weight-cases zero b = omega arith
weight-cases (suc k) b = omega (arith, weight-cases k (b / 2), pow_suc k)

low_step : (k b : ℕ) → low (suc k) b ≡ low k b + weight k b
low_step zero b = omega arith
low_step (suc k) b = omega (arith, low_step k (b / 2))

bit_and_zero : (w b : ℕ) → bit_and w b 0 ≡ 0
unfolding bit_and
bit_and_zero zero b = refl
bit_and_zero (suc w) b = omega (arith, bit_and_zero w (b / 2))

bit_or_zero : (w : ℕ) → bit_or w 0 0 ≡ 0
unfolding bit_or
bit_or_zero zero = refl
bit_or_zero (suc w) = omega (arith, bit_or_zero w)

double_parts : (n : ℕ) → ((2 * n) % 2 ≡ 0) × ((2 * n) / 2 ≡ n)
double_parts n = (omega arith, omega arith)

odd_parts : (b n : ℕ) → ((b % 2 + 2 * n) % 2 ≡ b % 2) × ((b % 2 + 2 * n) / 2 ≡ n)
odd_parts b n = (omega arith, omega arith)

bit_and-pow : (k w b : ℕ) → k < w → bit_and w b (2 ^ k) ≡ weight k b
unfolding bit_and
bit_and-pow k zero b h = omega (arith, h)
bit_and-pow zero (suc w) b h = omega (arith, bit_and_zero w (b / 2))
bit_and-pow (suc k) (suc w) b h =
    rw (pow_suc k, (double_parts (2 ^ k)).0, (double_parts (2 ^ k)).1)
      (omega (arith, bit_and-pow k w (b / 2) (omega (arith, h))))

bit_or-low : (k w b : ℕ) → k < w → bit_or w (low k b) (2 ^ k) ≡ low k b + 2 ^ k
unfolding bit_or
bit_or-low k zero b h = omega (arith, h)
bit_or-low zero (suc w) b h = omega (arith, bit_or_zero w)
bit_or-low (suc k) (suc w) b h =
    rw
      (
        pow_suc k,
        (double_parts (2 ^ k)).0,
        (double_parts (2 ^ k)).1,
        (odd_parts b (low k (b / 2))).0,
        (odd_parts b (low k (b / 2))).1,
      )
      (omega (arith, bit_or-low k w (b / 2) (omega (arith, h))))

pow_positive : (k : ℕ) → 0 < 2 ^ k
pow_positive zero = omega arith
pow_positive (suc k) = omega (arith, pow_positive k, pow_suc k)

add_flag :
    (found sum lowest worth flag : ℕ)
    → found ≡ worth
    → sum ≡ lowest + flag
    → 0 < flag
    → (worth ≡ 0) ⊎ (worth ≡ flag)
    → (if found == flag then sum else lowest) ≡ lowest + worth
add_flag found sum lowest worth flag f s positive c = elim (Bool-cases (found == flag)) [
  | inl e ↦ ground (arith, ==_iff found flag)
  | inr e ↦ ground (arith, ==_iff found flag, ==_refl flag)
]

-- With the flag added if the number has it, one more of its lowest bits is there.
pub union-low :
    (k b : ℕ)
    → k < 32
    → (if contains b (2 ^ k) then union (low k b) (2 ^ k) else low k b) ≡ low (suc k) b
unfolding union contains
union-low k b h =
    add_flag (bit_and 32 b (2 ^ k)) (bit_or 32 (low k b) (2 ^ k)) (low k b) (weight k b) (2 ^ k)
      (bit_and-pow k 32 b h) (bit_or-low k 32 b h) (pow_positive k) (weight-cases k b)
    ∙ sym (low_step k b)

pub low_all : (b : ℕ) → b < 4096 → low 12 b ≡ b
low_all b h = omega (arith, h)
