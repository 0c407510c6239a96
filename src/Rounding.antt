-- ===== src/Rounding.antt =====
-- Python's built-in `round(x, k)`, which the repository calls and does not implement. `x` is a
-- fraction of two whole numbers, and the result is counted in units of the last decimal kept.
use llmops_rag_api.Prelude.{ℕ, ◌+◌, ◌*◌, ◌≤◌, ◌<◌, ◌/◌, arith}
use native.Mathlib.Nat.{div-add-mod, mod-lt}

-- `round_ratio n d` is a whole number nearest to n / d. Which of two equally near ones is left open.
pub record Rounding : Type 0 where
  pub round_ratio : ℕ → ℕ → ℕ
  pub not_below : (n d : ℕ) → 0 < d → 2 * n ≤ 2 * (d * round_ratio n d) + d
  pub not_above : (n d : ℕ) → 0 < d → 2 * (d * round_ratio n d) ≤ 2 * n + d

abbrev pub half_up : ℕ → ℕ → ℕ
half_up n d = (2 * n + d) / (2 * d)

pub half_up_below : (n d : ℕ) → 0 < d → 2 * n ≤ 2 * (d * half_up n d) + d
half_up_below n d h =
    grind (arith, div-add-mod (2 * n + d) (2 * d), mod-lt (2 * n + d) {m = 2 * d} (omega arith))

pub half_up_above : (n d : ℕ) → 0 < d → 2 * (d * half_up n d) ≤ 2 * n + d
half_up_above n d h =
    grind (arith, div-add-mod (2 * n + d) (2 * d), mod-lt (2 * n + d) {m = 2 * d} (omega arith))

-- Rounding half up is one such function.
abbrev pub rounding_half_up : Rounding
rounding_half_up = record {
  round_ratio = half_up;
  not_below = half_up_below;
  not_above = half_up_above;
}
