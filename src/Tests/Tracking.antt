-- ===== src/Tests/Tracking.antt =====
-- Tests of the models of src/app/tracking.
use llmops_rag_api.Tracking.Cost.{price_for, gpt_4o_mini, pricing}
use llmops_rag_api.Text.{Text, starts_with, codes, text_eq}
use llmops_rag_api.Prelude.{◌≡◌, refl, inl, inr, ℕ, ◌<◌, pos, ◌+◌, ◌*◌, ◌≤◌, none, some, arith}
use llmops_rag_api.Tracking.Cost.Longest.{Best, price_for-longest}
use llmops_rag_api.Tracking.SpendGuard.{
  SpendGuard, BudgetExceeded, check, day_seconds, ticks_per_second, roll_window, enabled, exceeded,
  add_spend, record_cost,
}
use llmops_rag_api.Tracking.SpendGuard.Window.{check_after_reset, check_stays_refused}
use llmops_rag_api.Tracking.SpendGuard.Service.{Service, Reach, at_once, start}
use llmops_rag_api.Rounding.{rounding_half_up}
use llmops_rag_api.Tracking.SpendGuard.Overshoot.{spend_bounded}
use llmops_rag_api.Tracking.SpendGuard.Overlap.{overlap_spends_all}

mini_snapshot : Text
mini_snapshot = codes "gpt-4o-mini-2024-07-18"

mini_price : price_for mini_snapshot ≡ gpt_4o_mini
unfolding price_for mini_snapshot text_eq starts_with
mini_price = refl

price_for-longest_example : Best mini_snapshot pricing (codes "gpt-4o") (price_for mini_snapshot)
unfolding mini_snapshot starts_with
price_for-longest_example =
    price_for-longest mini_snapshot (codes "gpt-4o")
      (record { input_per_token = 250; output_per_token = 1000 }) (inr (inl refl)) refl

-- A budget of 0.25 USD, with 0.20 USD spent in a window that began at the time 0.
abbrev spending : SpendGuard
spending = record {
  budget = 25_000_000;
  window = day_seconds * ticks_per_second;
  spent = 20_000_000;
  calls = 3;
  window_started = 0;
}

abbrev exhausted : SpendGuard
exhausted = record spending { spent = 26_000_000 }

abbrev hour : ℕ
hour = 3600 * ticks_per_second

abbrev refusal_at_noon : BudgetExceeded
refusal_at_noon = record {
  spent_usd = 260_000;
  budget_usd = 25_000_000;
  resets_in_seconds = 43_200;
}

refused_at_noon : (check rounding_half_up (at_once (12 * hour)) exhausted).0 ≡ some refusal_at_noon
unfolding check roll_window enabled exceeded
refused_at_noon = refl

passed_below_budget : (check rounding_half_up (at_once hour) spending).0 ≡ none
unfolding check roll_window enabled
passed_below_budget = refl

check_after_reset_example :
    (check rounding_half_up
      (at_once (25 * hour))
      (add_spend 7 (check rounding_half_up (at_once (12 * hour)) exhausted).1)).0
    ≡ none
check_after_reset_example =
    check_after_reset rounding_half_up (at_once (12 * hour)) (at_once (25 * hour)) exhausted
      refusal_at_noon 7 refused_at_noon (omega arith)

check_stays_refused_example :
    (e : BudgetExceeded) × ((check rounding_half_up (at_once (13 * hour)) (
        record_cost
          (at_once (13 * hour))
          (pos 5)
          (check rounding_half_up (at_once (12 * hour)) exhausted).1)).0
      ≡ some e)
check_stays_refused_example =
    check_stays_refused rounding_half_up (at_once (12 * hour)) (at_once (13 * hour)) (pos 5)
      exhausted refusal_at_noon refused_at_noon (unfold check enabled roll_window in omega arith)

overlap_spends_all_example :
    (s : Service) × Reach rounding_half_up 80 700_000 (start (pos 25_000_000) day_seconds 0) s
    × (s.guard.spent ≡ 56_000_000)
    × (s.guard.budget ≡ 25_000_000)
overlap_spends_all_example =
    overlap_spends_all rounding_half_up 80 700_000 25_000_000 day_seconds (omega arith)
      (omega arith) (omega arith)

-- Eighty requests of 0.007 USD each, all admitted before the first of them records.
eighty : Service
eighty = overlap_spends_all_example.0

spend_bounded_example :
    (eighty.guard.spent < 25_000_000 + 80 * 700_000)
    × (eighty.total < (eighty.windows + 1) * (25_000_000 + 80 * 700_000))
    × (0 + eighty.windows * (day_seconds * ticks_per_second) ≤ eighty.now)
unfolding eighty
spend_bounded_example =
    spend_bounded rounding_half_up 80 700_000 (pos 25_000_000) day_seconds 0 {s = eighty}
      (omega arith) overlap_spends_all_example.1
