-- ===== src/Tracking/SpendGuard/Service.antt =====
-- How far the spend can pass the budget of src/app/tracking/spend_guard.py when requests overlap.
-- A request calls `check`, then the provider, then `record` with what the call cost. Between the
-- two calls the lock is free, so other requests may pass `check` meanwhile.
use llmops_rag_api.Prelude.{
  ℕ, ◌+◌, ◌-◌, ◌≤◌, ◌<◌, ◌≡◌, ℤ, pos, leb, if◌then◌else◌, none, some, arith,
}
use llmops_rag_api.Rounding.{Rounding}
use llmops_rag_api.Tracking.SpendGuard.{
  SpendGuard, Readings, BudgetExceeded, make, roll_window, check, record_cost, snapshot,
}

-- The guard with the requests that passed `check` and have not yet recorded; `total` is all that
-- was ever recorded, `windows` counts the resets, and `now` bounds every reading of the clock so far.
pub record Service : Type 0 where
  pub guard : SpendGuard
  pub in_flight : ℕ
  pub total : ℕ
  pub windows : ℕ
  pub now : ℕ

-- The readings of one operation, in the order of its calls, and not before `now`.
pub record IsNext (now : ℕ) (r : Readings) : Type 0 where
  pub started : now ≤ r.elapsed_at
  pub reset : r.elapsed_at ≤ r.reset_at
  pub asked : r.reset_at ≤ r.asked_at

abbrev pub rolls : Readings → SpendGuard → ℕ
rolls r g = if leb (g.window_started + g.window) r.elapsed_at then 1 else 0

-- One event, where at most `limit` requests overlap and none costs more than `most`.
pub data Step (rounding : Rounding) (limit most : ℕ) (s : Service) : Service → Type 0 where
  admit :
      (r : Readings) (t : Service)
      → IsNext s.now r
      → s.in_flight < limit
      → (check rounding r s.guard).0 ≡ none
      → t ≡ record {
        guard = (check rounding r s.guard).1;
        in_flight = s.in_flight + 1;
        total = s.total;
        windows = s.windows + rolls r s.guard;
        now = r.asked_at;
      }
      → Step rounding limit most s t
  refuse :
      (r : Readings) (t : Service) (e : BudgetExceeded)
      → IsNext s.now r
      → (check rounding r s.guard).0 ≡ some e
      → t ≡ record {
        guard = (check rounding r s.guard).1;
        in_flight = s.in_flight;
        total = s.total;
        windows = s.windows + rolls r s.guard;
        now = r.asked_at;
      }
      → Step rounding limit most s t
  finish :
      (r : Readings) (t : Service) (cost : ℕ)
      → IsNext s.now r
      → 0 < s.in_flight
      → 0 < cost
      → cost ≤ most
      → t ≡ record {
        guard = record_cost r (pos cost) s.guard;
        in_flight = s.in_flight - 1;
        total = s.total + cost;
        windows = s.windows + rolls r s.guard;
        now = r.asked_at;
      }
      → Step rounding limit most s t
  abandon :
      (t : Service)
      → 0 < s.in_flight
      → t ≡ record s { in_flight = s.in_flight - 1 }
      → Step rounding limit most s t
  inspect :
      (r : Readings) (t : Service)
      → IsNext s.now r
      → t ≡ record {
        guard = (snapshot rounding r s.guard).1;
        in_flight = s.in_flight;
        total = s.total;
        windows = s.windows + rolls r s.guard;
        now = r.asked_at;
      }
      → Step rounding limit most s t

pub data Reach (rounding : Rounding) (limit most : ℕ) (s : Service) : Service → Type 0 where
  here : Reach rounding limit most s s
  next :
      {t u : Service}
      → Reach rounding limit most s t
      → Step rounding limit most t u
      → Reach rounding limit most s u

-- The service after the roll of its window.
abbrev pub rolled : Readings → Service → Service
rolled r s = record s {
  guard = roll_window r s.guard;
  windows = s.windows + rolls r s.guard;
  now = r.asked_at;
}

-- A service that starts at the time `now`.
unfoldable pub start : ℤ → ℕ → ℕ → Service
unfolding make
start budget_usd window_seconds now = record {
  guard = make budget_usd window_seconds now;
  in_flight = 0;
  total = 0;
  windows = 0;
  now = now;
}

abbrev pub at_once : ℕ → Readings
at_once now = record { elapsed_at = now; reset_at = now; asked_at = now }

pub at_once-IsNext : (now : ℕ) → IsNext now (at_once now)
at_once-IsNext now = omega arith
