-- ===== src/Tracking/Tracker/Requests.antt =====
-- Requests that use the tracker of src/app/tracking/mlflow_tracker.py at once. A step is a part of `log_run` or of `flush`
-- between which others can come: the writes under the lock, the increment of the counter, its test, the reset,
-- and the save under the lock. The increment is taken as one step.
use llmops_rag_api.Prelude.{
  ℕ, ◌+◌, ◌-◌, ◌<◌, Option, none, some, if◌then◌else◌, ◌≡◌, refl, inl, inr, arith, Bool-cases,
}
use llmops_rag_api.Tracking.Tracker.{
  Backend, Gcs, Tar, TrackerSettings, Tracker, Text, count_run, is_due, can_flush, save_shard,
  reset, RunPayload, record_run, flush, after_run, log_run,
}

module _ (B : Backend) (G : Gcs) (T : Tar B.Dir) (settings : TrackerSettings) (limit : ℕ) where
  -- The tracker, the requests by where they stand, and two things that no field of the program holds: the runs
  -- started since the last save, and the tracker as that save left it.
  pub record Serving : Type 0 where
    pub tracker : Tracker B.Dir G.Bucket
    pub uncounted : ℕ
    pub untested : ℕ
    pub due : ℕ
    pub saving : ℕ
    pub unsaved : ℕ
    pub last : Tracker B.Dir G.Bucket

  abbrev pub in_flight : Serving → ℕ
  in_flight s = s.uncounted + s.untested + s.due + s.saving

  -- No request is in flight.
  abbrev pub quiet : Tracker B.Dir G.Bucket → Serving
  quiet t = record {
    tracker = t;
    uncounted = 0;
    untested = 0;
    due = 0;
    saving = 0;
    unsaved = 0;
    last = t;
  }

  -- A request whose run was not started leaves `log_run` at once.
  unfoldable pub recorded : Option Text × Tracker B.Dir G.Bucket → Serving → Serving
  recorded (none, t) s = record s { tracker = t }
  recorded (some id, t) s = record s {
    tracker = t;
    uncounted = s.uncounted + 1;
    unsaved = s.unsaved + 1;
  }

  unfoldable pub counted : Serving → Serving
  counted s = record s {
    tracker = count_run s.tracker;
    uncounted = s.uncounted - 1;
    untested = s.untested + 1;
  }

  unfoldable pub tested : Serving → Serving
  tested s =
      if is_due settings s.tracker
      then record s { untested = s.untested - 1; due = s.due + 1 }
      else record s { untested = s.untested - 1 }

  unfoldable pub flush_begun : Serving → Serving
  flush_begun s =
      if can_flush settings
      then record s { tracker = reset s.tracker; saving = s.saving + 1 }
      else s

  unfoldable pub saved : Serving → Serving
  saved s =
      let t = save_shard B G T settings s.tracker in
      record s { tracker = t; saving = s.saving - 1; unsaved = 0; last = t }

  -- At most `limit` requests are in flight at once. `shut_down` is the `flush` of the shutdown.
  pub data Step : Serving → Serving → Type 0 where
    log_one :
        (s : Serving) (name : Text) (payload : RunPayload B)
        → in_flight s < limit
        → Step s (recorded (record_run B settings name payload s.tracker) s)
    count_one : (s : Serving) → 0 < s.uncounted → Step s (counted s)
    test_one : (s : Serving) → 0 < s.untested → Step s (tested s)
    flush_one : (s : Serving) → 0 < s.due → Step s (flush_begun (record s { due = s.due - 1 }))
    shut_down : (s : Serving) → in_flight s < limit → Step s (flush_begun s)
    save_one : (s : Serving) → 0 < s.saving → Step s (saved s)

  pub data Reach (s : Serving) : Serving → Type 0 where
    here : Reach s s
    next : {t u : Serving} → Reach s t → Step t u → Reach s u

  abbrev pub IsIdle : Serving → Type 0
  IsIdle s = (s.uncounted ≡ 0) × (s.untested ≡ 0) × (s.due ≡ 0) × (s.saving ≡ 0)

  -- The steps lead there, and no request is left in flight.
  abbrev pub Leads : Serving → Tracker B.Dir G.Bucket → Type 0
  Leads s0 t = (s : Serving) × Reach s0 s × (s.tracker ≡ t) × IsIdle s

  flush_alone :
      {s0 : Serving} (s : Serving)
      → Reach s0 (flush_begun s)
      → IsIdle s
      → Leads s0 (flush B G T settings s.tracker)
  unfolding flush_begun flush saved
  flush_alone s p i = elim (Bool-cases (can_flush settings)) [
    | inl e ↦
        let s' : Serving = record s { tracker = reset s.tracker; saving = s.saving + 1 } in
        rw e (
          saved s',
          next (rw e at p) (save_one s' (omega arith)),
          refl,
          (i.0, i.1, i.2, omega (arith, i.3)),
        )
    | inr e ↦ rw e (s, (rw e at p), refl, i)
  ]

  test_alone :
      {s0 : Serving} (s : Serving)
      → Reach s0 s
      → (s.uncounted ≡ 0) × (s.untested ≡ 1) × (s.due ≡ 0) × (s.saving ≡ 0)
      → Leads s0 (if is_due settings s.tracker then flush B G T settings s.tracker else s.tracker)
  unfolding tested
  test_alone s p i =
      let q = next p (test_one s (omega (arith, i.1))) in
      elim (Bool-cases (is_due settings s.tracker)) [
        | inl e ↦
            let s' : Serving = record s { untested = s.untested - 1; due = s.due + 1 } in
            rw e (
              flush_alone (record s' { due = s'.due - 1 })
                (next (rw e at q) (flush_one s' (omega arith)))
                (i.0, omega (arith, i.1), omega (arith, i.2), i.3))
        | inr e ↦ rw e (
          record s { untested = s.untested - 1 },
          (rw e at q),
          refl,
          (i.0, omega (arith, i.1), i.2, i.3),
        )
      ]

  count_alone :
      {s0 : Serving} (r : Option Text × Tracker B.Dir G.Bucket) (s : Serving)
      → Reach s0 (recorded r s)
      → IsIdle s
      → Leads s0 (after_run B G T settings r).1
  unfolding recorded after_run counted
  count_alone (none, t) s p i = (record s { tracker = t }, p, refl, i)
  count_alone (some id, t) s p i =
      let s' : Serving = recorded (some id, t) s in
      test_alone (counted s') (next p (count_one s' (omega arith)))
        (omega (arith, i.0), omega (arith, i.1), i.2, i.3)

  -- `log_run` is what the steps of one request do when no other is in flight.
  pub log_run-Leads :
      {s0 : Serving} (s : Serving) (name : Text) (payload : RunPayload B)
      → 0 < limit
      → Reach s0 s
      → IsIdle s
      → Leads s0 (log_run B G T settings name payload s.tracker).1
  unfolding log_run
  log_run-Leads s name payload l p i =
      count_alone (record_run B settings name payload s.tracker) s
        (next p (log_one s name payload (omega (arith, i.0, i.1, i.2, i.3, l)))) i
