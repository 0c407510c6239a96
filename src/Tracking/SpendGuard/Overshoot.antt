-- ===== src/Tracking/SpendGuard/Overshoot.antt =====
-- The bound on the spend of src/app/tracking/spend_guard.py, over all interleavings of Service.antt.
use llmops_rag_api.Prelude.{
  ℕ, zero, suc, ◌+◌, ◌-◌, ◌*◌, ◌≤◌, ◌<◌, ◌≡◌, ℤ, pos, pos_part, none, arith,
}
use llmops_rag_api.Rounding.{Rounding}
use llmops_rag_api.Tracking.SpendGuard.{
  SpendGuard, Readings, enabled, roll_window, check, record_cost, add_spend, snapshot,
  ticks_per_second,
}
use llmops_rag_api.Tracking.SpendGuard.Service.{
  Service, IsNext, Step, admit, refuse, finish, abandon, inspect, Reach, here, next, rolled, start,
}

module _ (limit most budget window begun : ℕ) where
  -- What holds of every state: the running window, the requests still out, and all windows so far.
  pub record IsBounded (s : Service) : Type 0 where
    pub budget_eq : s.guard.budget ≡ budget
    pub window_eq : s.guard.window ≡ window
    pub in_flight_le : s.in_flight ≤ limit
    pub running : s.guard.spent + s.in_flight * most < budget + limit * most
    pub past : s.total ≤ s.windows * (budget + limit * most) + s.guard.spent
    pub spaced : begun + s.windows * window ≤ s.guard.window_started
    pub timely : s.guard.window_started ≤ s.now

  in_flight_room : (m : ℕ) → m ≤ limit → m * most ≤ limit * most
  in_flight_room m h = grind arith

  one_less : (m : ℕ) → 0 < m → (m - 1) * most + most ≡ m * most
  one_less zero h = absurd (omega arith)
  one_less (suc m) h = grind arith

  roll-IsBounded :
      (r : Readings) (s : Service)
      → 0 < budget
      → IsNext s.now r
      → IsBounded s
      → IsBounded (rolled r s)
  unfolding roll_window
  roll-IsBounded r s b n h = ground (arith, in_flight_room s.in_flight h.in_flight_le)

  admit-IsBounded :
      (s : Service)
      → IsBounded s
      → s.in_flight < limit
      → s.guard.spent < budget
      → IsBounded (record s { in_flight = s.in_flight + 1 })
  admit-IsBounded s h l e = ground (arith, in_flight_room (s.in_flight + 1) (omega arith))

  spend-IsBounded :
      (s : Service) (cost : ℕ)
      → IsBounded s
      → 0 < s.in_flight
      → cost ≤ most
      → IsBounded (record s {
        guard = add_spend cost s.guard;
        in_flight = s.in_flight - 1;
        total = s.total + cost;
      })
  unfolding add_spend
  spend-IsBounded s cost h l e = ground (arith, one_less s.in_flight l)

  abandon-IsBounded :
      (s : Service)
      → IsBounded s
      → 0 < s.in_flight
      → IsBounded (record s { in_flight = s.in_flight - 1 })
  abandon-IsBounded s h l = ground (arith, one_less s.in_flight l)

  -- What `check`, `record` and `snapshot` do to the guard, over the roll of the window.
  check_rolls :
      (rounding : Rounding) (r : Readings) (g : SpendGuard)
      → 0 < g.budget
      → (check rounding r g).1 ≡ roll_window r g
  unfolding check enabled roll_window
  check_rolls rounding r g h = ground arith

  check_pass :
      (rounding : Rounding) (r : Readings) (g : SpendGuard)
      → 0 < g.budget
      → (check rounding r g).0 ≡ none
      → (roll_window r g).spent < g.budget
  unfolding check enabled roll_window
  check_pass rounding r g h e = ground arith

  record_cost_rolls :
      (r : Readings) (cost : ℕ) (g : SpendGuard)
      → 0 < g.budget
      → 0 < cost
      → record_cost r (pos cost) g ≡ add_spend cost (roll_window r g)
  unfolding record_cost enabled
  record_cost_rolls r cost g h l = ground arith

  Step-IsBounded :
      (rounding : Rounding) {s t : Service}
      → 0 < budget
      → IsBounded s
      → Step rounding limit most s t
      → IsBounded t
  Step-IsBounded rounding {s} b h (admit r t n l e eq) = rw eq (
      rw (check_rolls rounding r s.guard (omega arith)) (
        admit-IsBounded (rolled r s) (roll-IsBounded r s b n h) l
          (rw (← h.budget_eq) (check_pass rounding r s.guard (omega arith) e))))
  Step-IsBounded rounding {s} b h (refuse r t x n e eq) =
      rw eq (rw (check_rolls rounding r s.guard (omega arith)) (roll-IsBounded r s b n h))
  Step-IsBounded rounding {s} b h (finish r t cost n l p c eq) = rw eq (
      rw (record_cost_rolls r cost s.guard (omega arith) p)
        (spend-IsBounded (rolled r s) cost (roll-IsBounded r s b n h) l c))
  Step-IsBounded rounding {s} b h (abandon t l eq) = rw eq (abandon-IsBounded s h l)
  Step-IsBounded rounding {s} b h (inspect r t n eq) =
      rw eq (unfold snapshot in roll-IsBounded r s b n h)

  Reach-IsBounded :
      (rounding : Rounding) {s t : Service}
      → 0 < budget
      → IsBounded s
      → Reach rounding limit most s t
      → IsBounded t
  Reach-IsBounded rounding b h here = h
  Reach-IsBounded rounding b h (next p st) =
      Step-IsBounded rounding b (Reach-IsBounded rounding b h p) st

start-IsBounded :
    (limit most : ℕ) (budget_usd : ℤ) (window_seconds now : ℕ)
    → 0 < pos_part budget_usd
    → IsBounded limit most
        (pos_part budget_usd)
        (window_seconds * ticks_per_second)
        now
        (start budget_usd window_seconds now)
unfolding start
start-IsBounded limit most budget_usd window_seconds now h = ground arith

-- With a positive budget, at most `limit` requests in flight at once and no request dearer than
-- `most`: after any interleaving of checks, records, failed calls and snapshots, the spend of the
-- running window is below the budget plus `limit` such requests, all that was ever recorded is below
-- that bound once for each window begun, and the time since the start is at least the window length once for
-- each window begun before the running one.
pub spend_bounded :
    (rounding : Rounding) (limit most : ℕ) (budget_usd : ℤ) (window_seconds begun : ℕ) {s : Service}
    → 0 < pos_part budget_usd
    → Reach rounding limit most (start budget_usd window_seconds begun) s
    → (s.guard.spent < pos_part budget_usd + limit * most)
      × (s.total < (s.windows + 1) * (pos_part budget_usd + limit * most))
      × (begun + s.windows * (window_seconds * ticks_per_second) ≤ s.now)
spend_bounded rounding limit most budget_usd window_seconds begun {s} h p =
    let inv =
      Reach-IsBounded limit most (pos_part budget_usd) (window_seconds * ticks_per_second) begun
        rounding h (start-IsBounded limit most budget_usd window_seconds begun h) p in
    ground (arith, inv.running, inv.past, inv.spaced, inv.timely)
