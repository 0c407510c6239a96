-- ===== src/Tracking/Tracker/Behind.antt =====
-- How far the saved shard of src/app/tracking/mlflow_tracker.py can be behind the runs that were started, over all
-- interleavings of Requests.antt.
use llmops_rag_api.Prelude.{
  ℕ, ◌+◌, ◌-◌, ◌*◌, ◌≤◌, ◌<◌, ◌≡◌, refl, ◌∙◌, ◌⊎◌, inl, inr, true, Option, none, some, arith,
  Bool-cases, Option-cases, leb, lt→ltb,
}
use llmops_rag_api.Tracking.Tracker.{
  Backend, Gcs, Tar, TrackerSettings, Tracker, save, can_flush, record_run, Text, count_run, is_due,
  reset, save_shard, RunPayload,
}
use llmops_rag_api.Tracking.Tracker.Requests.{
  shut_down, here, next, Serving, in_flight, recorded, counted, tested, flush_begun, saved, Step,
  Reach, log_one, quiet, count_one, test_one, flush_one, save_one,
}

plus_one : (m k : ℕ) → (m + 1) * k ≡ m * k + k
plus_one m k = grind arith

module _ (B : Backend) (G : Gcs) (T : Tar B.Dir) (settings : TrackerSettings) (limit : ℕ) where
  abbrev Served : Type 0
  Served = Serving B G T settings limit

  -- The shard is what a save of the directory as it is has left.
  abbrev pub JustSaved : Tracker B.Dir G.Bucket → Type 0
  JustSaved t =
      (b : G.Bucket) × (t.shard ≡ (save G T settings.snapshots_enabled (some t.db_dir) none b).1)

  -- What the counter misses of a save that a request has still to make.
  abbrev pub most : ℕ
  most = settings.snapshot_every + limit

  record IsBehind (t : Tracker B.Dir G.Bucket) (s : Served) : Type 0 where
    few : in_flight B G T settings limit s ≤ limit
    counter : s.tracker.runs_since_snapshot < settings.snapshot_every + s.untested + s.due
    behind : s.unsaved ≤ s.tracker.runs_since_snapshot + s.uncounted + s.saving * most
    shard : s.tracker.shard ≡ s.last.shard
    kept : (s.last ≡ t) ⊎ JustSaved s.last

  module _ (t : Tracker B.Dir G.Bucket) (every : 0 < settings.snapshot_every)
      (can : can_flush settings ≡ true) where
    record_run-kept :
        (name : Text) (payload : RunPayload B) (x : Tracker B.Dir G.Bucket)
        → let x' = (record_run B settings name payload x).1 in
          (x'.runs_since_snapshot ≡ x.runs_since_snapshot) × (x'.shard ≡ x.shard)
    unfolding record_run
    record_run-kept name payload x = elim (Bool-cases settings.enabled) [
      | inr e ↦ rw e (refl, refl)
      | inl e ↦ elim (Option-cases (B.start_run name x.db_dir).0) [
        | inl f ↦ rw e (rw f (refl, refl))
        | inr (id, f) ↦ rw e (rw f (refl, refl))
      ]
    ]

    recorded-IsBehind :
        (r : Option Text × Tracker B.Dir G.Bucket) (s : Served)
        → r.1.runs_since_snapshot ≡ s.tracker.runs_since_snapshot
        → r.1.shard ≡ s.tracker.shard
        → in_flight B G T settings limit s < limit
        → IsBehind t s
        → IsBehind t (recorded B G T settings limit r s)
    unfolding recorded
    recorded-IsBehind (none, x) s e f l h = record {
      few = h.few;
      counter = omega (arith, e, h.counter);
      behind = omega (arith, e, h.behind);
      shard = f ∙ h.shard;
      kept = h.kept;
    }
    recorded-IsBehind (some id, x) s e f l h = record {
      few = omega (arith, l);
      counter = omega (arith, e, h.counter);
      behind = omega (arith, e, h.behind);
      shard = f ∙ h.shard;
      kept = h.kept;
    }

    counted-IsBehind :
        (s : Served) → 0 < s.uncounted → IsBehind t s → IsBehind t (counted B G T settings limit s)
    unfolding counted count_run
    counted-IsBehind s l h = record {
      few = omega (arith, l, h.few);
      counter = omega (arith, h.counter);
      behind = omega (arith, l, h.behind);
      shard = h.shard;
      kept = h.kept;
    }

    tested-IsBehind :
        (s : Served) → 0 < s.untested → IsBehind t s → IsBehind t (tested B G T settings limit s)
    unfolding tested is_due
    tested-IsBehind s l h =
        elim (Bool-cases (leb settings.snapshot_every s.tracker.runs_since_snapshot)) [
          | inl e ↦ rw (lt→ltb 0 settings.snapshot_every every) (
              rw e (record {
                few = omega (arith, l, h.few);
                counter = omega (arith, l, h.counter);
                behind = h.behind;
                shard = h.shard;
                kept = h.kept;
              }))
          | inr e ↦ rw (lt→ltb 0 settings.snapshot_every every) (
              rw e (record {
                few = omega (arith, h.few);
                counter = ground arith;
                behind = h.behind;
                shard = h.shard;
                kept = h.kept;
              }))
        ]

    -- A flush takes over what the counter held.
    flush_begun-IsBehind :
        (s : Served)
        → in_flight B G T settings limit s < limit
        → s.tracker.runs_since_snapshot ≤ most
        → s.unsaved ≤ s.tracker.runs_since_snapshot + s.uncounted + s.saving * most
        → s.tracker.shard ≡ s.last.shard
        → (s.last ≡ t) ⊎ JustSaved s.last
        → IsBehind t (flush_begun B G T settings limit s)
    unfolding flush_begun reset
    flush_begun-IsBehind s l c b shard kept = rw can (record {
      few = omega (arith, l);
      counter = omega (arith, every);
      behind = omega (arith, c, b, plus_one s.saving most);
      shard = shard;
      kept = kept;
    })

    saved-IsBehind :
        (s : Served) → 0 < s.saving → IsBehind t s → IsBehind t (saved B G T settings limit s)
    unfolding saved save_shard
    saved-IsBehind s l h = record {
      few = omega (arith, l, h.few);
      counter = h.counter;
      behind = omega arith;
      shard = refl;
      kept = inr (s.tracker.shard, refl);
    }

    Step-IsBehind : {s u : Served} → Step B G T settings limit s u → IsBehind t s → IsBehind t u
    Step-IsBehind (log_one s name payload l) h =
        let (same, shard) = record_run-kept name payload s.tracker in
        recorded-IsBehind (record_run B settings name payload s.tracker) s same shard l h
    Step-IsBehind (count_one s l) h = counted-IsBehind s l h
    Step-IsBehind (test_one s l) h = tested-IsBehind s l h
    Step-IsBehind (flush_one s l) h =
        flush_begun-IsBehind (record s { due = s.due - 1 }) (omega (arith, l, h.few))
          (omega (arith, h.few, h.counter)) h.behind h.shard h.kept
    Step-IsBehind (shut_down s l) h =
        flush_begun-IsBehind s l (omega (arith, h.few, h.counter)) h.behind h.shard h.kept
    Step-IsBehind (save_one s l) h = saved-IsBehind s l h

    Reach-IsBehind :
        {s : Served}
        → t.runs_since_snapshot ≡ 0
        → Reach B G T settings limit (quiet B G T settings limit t) s
        → IsBehind t s
    Reach-IsBehind z here = record {
      few = omega arith;
      counter = omega (arith, z, every);
      behind = omega arith;
      shard = refl;
      kept = inl refl;
    }
    Reach-IsBehind z (next p st) = Step-IsBehind st (Reach-IsBehind z p)

    -- With snapshots switched on, after any interleaving of at most `limit` requests and flushes, the shard is
    -- what the last save has left of the directory, or as it was at the start. The runs started since then are
    -- fewer than `snapshot_every` plus the requests that have still to count or to test the counter or
    -- to reset it, and `snapshot_every + limit` for each save that a request has still to make. So
    -- with no request in flight they are fewer than `snapshot_every`. The counter stays below
    -- `snapshot_every` plus the requests that have still to test or to reset it.
    pub requests-Behind :
        (s : Served)
        → t.runs_since_snapshot ≡ 0
        → Reach B G T settings limit (quiet B G T settings limit t) s
        → (s.unsaved
            < settings.snapshot_every
              + (s.uncounted + s.untested + s.due)
              + s.saving * (settings.snapshot_every + limit))
          × (s.tracker.runs_since_snapshot < settings.snapshot_every + (s.untested + s.due))
          × (s.tracker.shard ≡ s.last.shard)
          × ((s.last ≡ t) ⊎ JustSaved s.last)
    requests-Behind s z p =
        let h = Reach-IsBehind {s = s} z p in
        (omega (arith, h.behind, h.counter), omega (arith, h.counter), h.shard, h.kept)
