-- ===== src/Tracking/SpendGuard/Window.antt =====
-- What a refusal of src/app/tracking/spend_guard.py tells the caller, and when it ends.
use llmops_rag_api.Prelude.{ℕ, ◌+◌, ◌-◌, ◌*◌, ◌≤◌, ◌<◌, ◌≡◌, ℤ, none, some, arith}
use llmops_rag_api.Rounding.{Rounding}
use llmops_rag_api.Tracking.SpendGuard.{
  SpendGuard, Readings, BudgetExceeded, enabled, roll_window, check, record_cost, add_spend,
  snapshot, ticks_per_second, exceeded, resets_in, round_micro,
}

round-zero : (rounding : Rounding) (d : ℕ) → 0 < d → rounding.round_ratio 0 d ≡ 0
round-zero rounding d h = grind (arith, rounding.not_above 0 d h)

-- What a refusal says of the guard.
refusal :
    (rounding : Rounding) (r : Readings) (g : SpendGuard) (e : BudgetExceeded)
    → (check rounding r g).0 ≡ some e
    → (0 < g.budget)
      × (g.budget ≤ (roll_window r g).spent)
      × (e ≡ exceeded rounding r.asked_at (roll_window r g))
      × ((check rounding r g).1 ≡ roll_window r g)
unfolding check enabled roll_window
refusal rounding r g e h = ground arith

check_fresh :
    (rounding : Rounding) (r : Readings) (g : SpendGuard)
    → 0 < g.budget
    → g.window_started + g.window ≤ r.elapsed_at
    → (check rounding r g).0 ≡ none
unfolding check enabled roll_window
check_fresh rounding r g b l = ground arith

check_spent :
    (rounding : Rounding) (r : Readings) (g : SpendGuard)
    → 0 < g.budget
    → g.budget ≤ g.spent
    → r.elapsed_at < g.window_started + g.window
    → (check rounding r g).0 ≡ some (exceeded rounding r.asked_at g)
unfolding check enabled roll_window
check_spent rounding r g b s l = ground arith

record_cost_grows :
    (r : Readings) (cost : ℤ) (g : SpendGuard)
    → r.elapsed_at < g.window_started + g.window
    → let g' = record_cost r cost g in
      (g'.budget ≡ g.budget)
      × (g'.window ≡ g.window)
      × (g'.window_started ≡ g.window_started)
      × (g.spent ≤ g'.spent)
unfolding record_cost roll_window add_spend enabled
record_cost_grows r cost g l = ground arith

roll_keeps :
    (r : Readings) (g : SpendGuard)
    → ((roll_window r g).budget ≡ g.budget) × ((roll_window r g).window ≡ g.window)
unfolding roll_window
roll_keeps r g = ground arith

-- When `check` refuses, a snapshot taken with the same clock readings shows nothing remaining, and
-- the exception carries the spend, the budget and the seconds to the reset that the snapshot shows.
check-snapshot :
    (rounding : Rounding) (r : Readings) (g : SpendGuard) (e : BudgetExceeded)
    → (check rounding r g).0 ≡ some e
    → let shown = (snapshot rounding r g).0 in
      (shown.remaining_usd ≡ 0)
      × (shown.spent_usd ≡ e.spent_usd)
      × (shown.budget_usd ≡ e.budget_usd)
      × (shown.window_resets_in_seconds ≡ e.resets_in_seconds)
unfolding snapshot exceeded round_micro
check-snapshot rounding r g e h =
    let f = refusal rounding r g e h in
    let nothing : (roll_window r g).budget - (roll_window r g).spent ≡ 0 =
      omega (arith, f.1, (roll_keeps r g).0) in
    (rw nothing (round-zero rounding 100 (omega arith)), cc f.2, cc f.2, cc f.2)

-- A refusal tells the truth up to one second: at any later call that starts more than the announced
-- seconds after the refusal, and at least a second more, `check` passes again, whatever was recorded
-- by requests still in flight meanwhile, as long as no other call has opened a new window.
pub check_after_reset :
    (rounding : Rounding) (r later : Readings) (g : SpendGuard) (e : BudgetExceeded) (extra : ℕ)
    → (check rounding r g).0 ≡ some e
    → r.asked_at + (e.resets_in_seconds + 1) * ticks_per_second ≤ later.elapsed_at
    → (check rounding later (add_spend extra (check rounding r g).1)).0 ≡ none
unfolding exceeded resets_in add_spend
check_after_reset rounding r later g e extra h l =
    let f = refusal rounding r g e h in
    let keeps = roll_keeps r g in
    let waits : e.resets_in_seconds ≡ resets_in r.asked_at (roll_window r g) = cc f.2 in
    rw f.3 (
      check_fresh rounding later (add_spend extra (roll_window r g)) (omega (arith, f.0, keeps.0))
        (omega (arith, waits)))

still_refused :
    (rounding : Rounding) (again : Readings) (cost : ℤ) (g : SpendGuard)
    → 0 < g.budget
    → g.budget ≤ g.spent
    → again.elapsed_at < g.window_started + g.window
    → (e : BudgetExceeded) × ((check rounding again (record_cost again cost g)).0 ≡ some e)
still_refused rounding again cost g b s l =
    let g' = record_cost again cost g in
    let grown = record_cost_grows again cost g l in
    (
      exceeded rounding again.asked_at g',
      check_spent rounding again g' (omega (arith, grown.0)) (omega (arith, grown.0, grown.3))
          (rw (grown.1, grown.2) l),
    )

-- Until the running window ends, a refusal stays: after it, recording any further costs and asking
-- again before the end of the window refuses again.
pub check_stays_refused :
    (rounding : Rounding) (r again : Readings) (cost : ℤ) (g : SpendGuard) (e : BudgetExceeded)
    → (check rounding r g).0 ≡ some e
    → again.elapsed_at < (check rounding r g).1.window_started + g.window
    → (e' : BudgetExceeded) × ((check rounding again
          (record_cost again cost (check rounding r g).1)).0
        ≡ some e')
check_stays_refused rounding r again cost g e h l =
    let f = refusal rounding r g e h in
    let keeps = roll_keeps r g in
    let l' : again.elapsed_at < (roll_window r g).window_started + g.window = rw f.3 at l in
    rw f.3 (
      still_refused rounding again cost (roll_window r g) (omega (arith, f.0, keeps.0))
        (omega (arith, f.1, keeps.0)) (rw keeps.1 l'))
