-- ===== src/Tracking/SpendGuard.antt =====
-- src/app/tracking/spend_guard.py. Money is in units of 1e-8 USD (Tracking/Cost.antt), time in
-- nanoseconds of the monotonic clock. An operation gets the readings that its calls of
-- `time.monotonic()` return, in order. The lock makes an operation atomic: the methods below are the
-- locked bodies, and interleaving happens between operations. Log lines, the warning at 80% of the
-- budget among them, are not modelled.
pub mod Service
pub mod Overshoot
pub mod Overlap
pub mod Window
use llmops_rag_api.Prelude.{
  ℕ, ◌+◌, ◌-◌, ◌*◌, ◌/◌, ◌≤◌, Bool, true, false, ℤ, pos_part, leb_ℤ, pos, ltb, leb, if◌then◌else◌,
  Option, none, some,
}
use llmops_rag_api.Rounding.{Rounding}

abbrev pub ticks_per_second : ℕ
ticks_per_second = 1_000_000_000

abbrev pub day_seconds : ℕ
day_seconds = 86_400

pub record SpendGuard : Type 0 where
  pub budget : ℕ
  pub window : ℕ
  pub spent : ℕ
  pub calls : ℕ
  pub window_started : ℕ

-- What the clock shows at the calls that an operation makes: `elapsed_at` and `reset_at` in
-- `_roll_window_locked`, `asked_at` for the time to the reset.
pub record Readings : Type 0 where
  pub elapsed_at : ℕ
  pub reset_at : ℕ
  pub asked_at : ℕ

pub record BudgetExceeded : Type 0 where
  pub spent_usd : ℕ
  pub budget_usd : ℕ
  pub resets_in_seconds : ℕ

pub record SpendSnapshot : Type 0 where
  pub is_enabled : Bool
  pub spent_usd : ℕ
  pub budget_usd : ℕ
  pub remaining_usd : ℕ
  pub call_count : ℕ
  pub window_resets_in_seconds : ℕ

-- `SpendGuard(budget_usd, window_seconds)` at the time `now`.
unfoldable pub make : ℤ → ℕ → ℕ → SpendGuard
make budget_usd window_seconds now = record {
  budget = pos_part budget_usd;
  window = window_seconds * ticks_per_second;
  spent = 0;
  calls = 0;
  window_started = now;
}

unfoldable pub enabled : SpendGuard → Bool
enabled g = ltb 0 g.budget

unfoldable pub roll_window : Readings → SpendGuard → SpendGuard
roll_window r g =
    if leb (g.window_started + g.window) r.elapsed_at
    then record g { spent = 0; calls = 0; window_started = r.reset_at }
    else g

-- `int(max(0.0, window - (now - started)))`, in seconds.
unfoldable pub resets_in : ℕ → SpendGuard → ℕ
resets_in now g = (g.window_started + g.window - now) / ticks_per_second

-- `round(x, 6)` of an amount, in units of 1e-6 USD.
unfoldable pub round_micro : Rounding → ℕ → ℕ
round_micro rounding x = rounding.round_ratio x 100

-- `BudgetExceededError(spent, budget, resets_in)`
unfoldable pub exceeded : Rounding → ℕ → SpendGuard → BudgetExceeded
unfolding resets_in round_micro
exceeded rounding now g = record {
  spent_usd = round_micro rounding g.spent;
  budget_usd = g.budget;
  resets_in_seconds = resets_in now g;
}

-- `some` is the exception; the state comes back beside it.
unfoldable pub check : Rounding → Readings → SpendGuard → Option BudgetExceeded × SpendGuard
check rounding r g =
    let rolled = roll_window r g in
    if enabled g
    then (if leb rolled.budget rolled.spent
        then (some (exceeded rounding r.asked_at rolled), rolled)
        else (none, rolled))
    else (none, g)

unfoldable pub add_spend : ℕ → SpendGuard → SpendGuard
add_spend cost g = record g { spent = g.spent + cost; calls = g.calls + 1 }

unfoldable pub record_cost : Readings → ℤ → SpendGuard → SpendGuard
record_cost r cost_usd g =
    if enabled g
    then (if leb_ℤ cost_usd (pos 0) then g else add_spend (pos_part cost_usd) (roll_window r g))
    else g

unfoldable pub snapshot : Rounding → Readings → SpendGuard → SpendSnapshot × SpendGuard
snapshot rounding r g =
    let rolled = roll_window r g in
    (
      record {
        is_enabled = enabled rolled;
        spent_usd = round_micro rounding rolled.spent;
        budget_usd = rolled.budget;
        remaining_usd = round_micro rounding (rolled.budget - rolled.spent);
        call_count = rolled.calls;
        window_resets_in_seconds = resets_in r.asked_at rolled;
      },
      rolled,
    )
