-- ===== src/Tracking/SpendGuard/Overlap.antt =====
-- That overlapping requests can spend as much as the bound of Overshoot.antt allows.
use llmops_rag_api.Prelude.{ℕ, zero, suc, ◌+◌, ◌*◌, ◌≤◌, ◌<◌, ◌≡◌, refl, pos, arith}
use native.Mathlib.Nat.{le_refl, add-zero}
use native.Mathlib.Numerals.{towards_suc}
use llmops_rag_api.Rounding.{Rounding}
use llmops_rag_api.Tracking.SpendGuard.{
  enabled, roll_window, check, record_cost, add_spend, ticks_per_second,
}
use llmops_rag_api.Tracking.SpendGuard.Service.{
  Service, Step, admit, finish, Reach, here, next, start, at_once, at_once-IsNext,
}

-- A service at the time 0 with `waiting` requests in flight and `done` recorded at `cost` each.
abbrev busy : ℕ → ℕ → ℕ → ℕ → ℕ → Service
busy budget window cost waiting done = record {
  guard = record {
    budget = budget;
    window = window;
    spent = done * cost;
    calls = done;
    window_started = 0;
  };
  in_flight = waiting;
  total = done * cost;
  windows = 0;
  now = 0;
}

module _ (rounding : Rounding) (limit cost budget window : ℕ) (b : 0 < budget) (w : 0 < window)
    (c : 0 < cost) where
  admit_one :
      (k : ℕ)
      → k < limit
      → Step rounding limit cost (busy budget window cost k 0) (busy budget window cost (k + 1) 0)
  unfolding check enabled roll_window
  admit_one k l = admit (at_once 0) _ (at_once-IsNext 0) l (ground arith) (ground arith)

  finish_one :
      (k m : ℕ)
      → Step rounding limit cost
          (busy budget window cost (suc k) m)
          (busy budget window cost k (m + 1))
  unfolding record_cost enabled roll_window add_spend
  finish_one k m =
      finish (at_once 0) _ cost (at_once-IsNext 0) (omega arith) c (le_refl cost) (ground arith)

  admit_all :
      (k : ℕ)
      → k ≤ limit
      → Reach rounding limit cost (busy budget window cost 0 0) (busy budget window cost k 0)
  admit_all zero l = here
  admit_all (suc k) l = next (admit_all k (omega arith)) (simp towards_suc at (admit_one k l))

  finish_all :
      (k m : ℕ) {s : Service}
      → Reach rounding limit cost s (busy budget window cost k m)
      → Reach rounding limit cost s (busy budget window cost 0 (m + k))
  finish_all zero m p = rw add-zero p
  finish_all (suc k) m p =
      let e : m + 1 + k ≡ m + suc k = omega arith in
      rw (← e) (finish_all k (m + 1) (next p (finish_one k m)))

-- The bound is met up to the budget: whatever the positive budget and window, `limit` requests that
-- all pass `check` before any of them records can spend `limit` times the dearest request, however
-- small the budget is. So with two overlapping requests the overshoot is not limited to one.
pub overlap_spends_all :
    (rounding : Rounding) (limit cost budget window_seconds : ℕ)
    → 0 < budget
    → 0 < window_seconds
    → 0 < cost
    → (s : Service) × Reach rounding limit cost (start (pos budget) window_seconds 0) s
      × (s.guard.spent ≡ limit * cost)
      × (s.guard.budget ≡ budget)
unfolding start
overlap_spends_all rounding limit cost budget window_seconds b w c =
    let window : ℕ = window_seconds * ticks_per_second in
    let begins : start (pos budget) window_seconds 0 ≡ busy budget window cost 0 0 = ground arith in
    let e : 0 + limit ≡ limit = omega arith in
    let all =
      finish_all rounding limit cost budget window b (omega arith) c limit 0
        (admit_all rounding limit cost budget window b (omega arith) c limit (le_refl limit)) in
    (busy budget window cost 0 limit, rw begins (rw e at all), refl, refl)
