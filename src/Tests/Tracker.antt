-- ===== src/Tests/Tracker.antt =====
-- Runs of src/app/tracking/mlflow_tracker.py.
use llmops_rag_api.Prelude.{
  ◌≡◌, refl, true, some, none, List, [], ◌∷◌, arith, false, ◌+◌, ◌*◌, ◌<◌, ◌⊎◌,
}
use llmops_rag_api.Rag.Chroma.{Item}
use llmops_rag_api.Tests.Memory.{gcs, tar, Slot}
use llmops_rag_api.Text.{Text, codes}
use llmops_rag_api.Tracking.Tracker.{
  Backend, RunPayload, Tracker, TrackerSettings, log_run, after_run, can_flush, record_run,
  count_run,
}
use llmops_rag_api.Tracking.Tracker.Behind.{JustSaved, requests-Behind}
use llmops_rag_api.Tracking.Tracker.Requests.{
  Leads, Serving, Reach, here, next, quiet, recorded, counted, log_one, count_one, log_run-Leads,
}

abbrev run_item : Text → Item
run_item name = record { id = name; document = name; embedding = []; metadata = [] }

-- A database of the names of the runs, whose other calls raise.
abbrev backend : Backend
backend = record {
  Dir = List Item;
  Metric = Unit;
  start_run = λ name d. (some name, run_item name ∷ d);
  set_tags = λ id tags d. (false, d);
  log_params = λ id params d. (false, d);
  log_metrics = λ id metrics d. (false, d);
  log_text = λ id content name d. (false, d);
  end_run = λ id returned d. d;
}

abbrev every_second : TrackerSettings
every_second = record {
  enabled = true;
  log_artifacts = true;
  snapshot_every = 2;
  snapshots_enabled = true;
  has_db_dir = true;
}

abbrev payload : RunPayload backend
payload = record { params = (codes "k", codes "4") ∷ []; metrics = []; tags = []; artifacts = [] }

abbrev fresh : Tracker (List Item) Slot
fresh = record { db_dir = []; runs_since_snapshot = 0; shard = (0, none) }

-- The id is returned, though a call of the run has raised.
failed_id :
    (log_run backend gcs tar every_second (codes "query") payload fresh).0 ≡ some (codes "query")
unfolding log_run after_run record_run
failed_id = refl

-- Two requests that overlap: each writes its run, and then each counts it.
abbrev before : Serving backend gcs tar every_second 2
before = quiet backend gcs tar every_second 2 fresh

abbrev write_one :
    Text → Serving backend gcs tar every_second 2 → Serving backend gcs tar every_second 2
write_one name s =
    recorded backend gcs tar every_second 2 (record_run backend every_second name payload s.tracker)
      s

abbrev written : Serving backend gcs tar every_second 2
written = write_one (codes "b") (write_one (codes "a") before)

abbrev both_counted : Serving backend gcs tar every_second 2
both_counted =
    counted backend gcs tar every_second 2 (counted backend gcs tar every_second 2 written)

both_counted-Reach : Reach backend gcs tar every_second 2 before both_counted
unfolding recorded record_run counted count_run
both_counted-Reach =
    next
      (next
        (next (next here (log_one before (codes "a") payload (omega arith)))
          (log_one (write_one (codes "a") before) (codes "b") payload (omega arith)))
        (count_one written (omega arith)))
      (count_one (counted backend gcs tar every_second 2 written) (omega arith))

-- Both runs are counted and none is saved.
requests-Behind_example :
    (both_counted.unsaved
      < 2
        + (both_counted.uncounted + both_counted.untested + both_counted.due)
        + both_counted.saving * (2 + 2))
    × (both_counted.tracker.runs_since_snapshot < 2 + (both_counted.untested + both_counted.due))
    × (both_counted.tracker.shard ≡ both_counted.last.shard)
    × ((both_counted.last ≡ fresh) ⊎ JustSaved backend gcs tar every_second 2 both_counted.last)
unfolding can_flush
requests-Behind_example =
    requests-Behind backend gcs tar every_second 2 fresh (omega arith) refl both_counted refl
      both_counted-Reach

two_unsaved : (both_counted.unsaved ≡ 2) × (both_counted.tracker.runs_since_snapshot ≡ 2)
unfolding recorded record_run counted count_run
two_unsaved = (refl, refl)

-- One request alone.
alone :
    Leads backend gcs tar every_second 2 before
      (log_run backend gcs tar every_second (codes "query") payload fresh).1
alone =
    log_run-Leads backend gcs tar every_second 2 before (codes "query") payload (omega arith) here
      (refl, refl, refl, refl)
