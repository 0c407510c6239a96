-- ===== src/Tracking/Tracker.antt =====
-- src/app/tracking/mlflow_tracker.py: `log_run`, `flush`, `_truncate_params`. MLflow is a parameter: its calls change the
-- directory of the tracking database, also where they raise, and `start_run` gives the run id or raises. The lock
-- makes the writes of a run, and a save, one step each; the counter is changed and tested outside it, so that
-- `log_run` and `flush` are made of parts between which other requests can come. The initialisation and
-- the log lines are left out.

pub mod Requests
pub mod Behind
use llmops_rag_api.Prelude.{
  ℕ, ◌+◌, Bool, true, false, ◌&&◌, Option, none, some, [], ◌∷◌, ◌++◌, if◌then◌else◌, leb, ltb,
  length, take,
}
use llmops_rag_api.Text.{Text, codes}
use llmops_rag_api.Dict.{Dict}
use llmops_rag_api.Persistence.{Gcs, Tar, save}

-- `true` is a call that returns. `end_run` leaves the `with` block, in which a call has raised or not.
pub record Backend : Type 1 where
  pub Dir : Type 0
  pub Metric : Type 0
  pub start_run : Text → Dir → Option Text × Dir
  pub set_tags : Text → Dict Text → Dir → Bool × Dir
  pub log_params : Text → Dict Text → Dir → Bool × Dir
  pub log_metrics : Text → Dict Metric → Dir → Bool × Dir
  pub log_text : Text → Text → Text → Dir → Bool × Dir
  pub end_run : Text → Bool → Dir → Dir

-- The text of a value, cut to what MLflow takes.
abbrev pub truncated : Text → Text
truncated text = if leb (length text) 500 then text else take 497 text ++ codes "..."

unfoldable pub truncate_params : Dict Text → Dict Text
truncate_params [] = []
truncate_params ((key, value) ∷ ps) = let rest = truncate_params ps in (key, truncated value) ∷ rest

module _ (B : Backend) where
  pub record RunPayload : Type 0 where
    pub params : Dict Text
    pub metrics : Dict B.Metric
    pub tags : Dict Text
    pub artifacts : Dict Text

  -- A call after one that may have raised.
  abbrev pub and_then : Bool × B.Dir → (B.Dir → Bool × B.Dir) → Bool × B.Dir
  and_then (true, d) next = next d
  and_then (false, d) next = (false, d)

  -- `if xs: call(xs)`
  abbrev pub unless_empty :
      {A : Type 0} → Dict A → (Dict A → B.Dir → Bool × B.Dir) → B.Dir → Bool × B.Dir
  unless_empty [] call d = (true, d)
  unless_empty (x ∷ xs) call d = call (x ∷ xs) d

  unfoldable pub log_texts : Text → Dict Text → B.Dir → Bool × B.Dir
  log_texts id [] d = (true, d)
  log_texts id ((name, content) ∷ more) d =
      and_then (B.log_text id content name d) (λ d'. log_texts id more d')

  -- The body of the `with` block.
  unfoldable pub write_run : Bool → Text → RunPayload → B.Dir → Bool × B.Dir
  unfolding log_texts truncate_params
  write_run log_artifacts id payload d =
      and_then (unless_empty payload.tags (B.set_tags id) d) (λ d1.
        and_then (unless_empty payload.params (λ ps. B.log_params id (truncate_params ps)) d1)
          (λ d2.
            and_then (unless_empty payload.metrics (B.log_metrics id) d2)
              (λ d3. if log_artifacts then log_texts id payload.artifacts d3 else (true, d3))))

-- What the tracker reads of the settings; `has_db_dir` is whether the database is a file in a directory.
pub record TrackerSettings : Type 0 where
  pub enabled : Bool
  pub log_artifacts : Bool
  pub snapshot_every : ℕ
  pub snapshots_enabled : Bool
  pub has_db_dir : Bool

-- The counter, the directory of the database, and the object of this instance.
pub record Tracker (D O : Type 0) : Type 0 where
  pub db_dir : D
  pub runs_since_snapshot : ℕ
  pub shard : O

module _ (B : Backend) (settings : TrackerSettings) where
  -- The part of `log_run` under the lock: the run is started and written.
  unfoldable pub record_run :
      {O : Type 0} → Text → RunPayload B → Tracker B.Dir O → Option Text × Tracker B.Dir O
  unfolding write_run
  record_run run_name payload t =
      if settings.enabled
      then (let (started, d) = B.start_run run_name t.db_dir in
          elim started [
            | none ↦ (none, record t { db_dir = d })
            | some id ↦
                let (returned, d') = write_run B settings.log_artifacts id payload d in
                (some id, record t { db_dir = B.end_run id returned d' })
          ])
      else (none, t)

-- `self._runs_since_snapshot += 1`, outside the lock.
unfoldable pub count_run : {D O : Type 0} → Tracker D O → Tracker D O
count_run t = record t { runs_since_snapshot = t.runs_since_snapshot + 1 }

-- `every > 0 and self._runs_since_snapshot >= every`, outside the lock.
unfoldable pub is_due : {D O : Type 0} → TrackerSettings → Tracker D O → Bool
is_due settings t =
    ltb 0 settings.snapshot_every && leb settings.snapshot_every t.runs_since_snapshot

-- Whether `flush` goes on after its first line.
unfoldable pub can_flush : TrackerSettings → Bool
can_flush settings = settings.snapshots_enabled && settings.has_db_dir

-- `self._runs_since_snapshot = 0`, outside the lock.
unfoldable pub reset : {D O : Type 0} → Tracker D O → Tracker D O
reset t = record t { runs_since_snapshot = 0 }

module _ (B : Backend) (G : Gcs) (T : Tar B.Dir) (settings : TrackerSettings) where
  -- The part of `flush` under the lock.
  unfoldable pub save_shard : Tracker B.Dir G.Bucket → Tracker B.Dir G.Bucket
  save_shard t = record t {
    shard = (save G T settings.snapshots_enabled (some t.db_dir) none t.shard).1;
  }

  -- The parts of a call one after another, with no other request between them.
  unfoldable pub flush : Tracker B.Dir G.Bucket → Tracker B.Dir G.Bucket
  unfolding can_flush reset save_shard
  flush t = if can_flush settings then save_shard (reset t) else t

  unfoldable pub after_run :
      Option Text × Tracker B.Dir G.Bucket → Option Text × Tracker B.Dir G.Bucket
  unfolding count_run is_due flush
  after_run (none, t) = (none, t)
  after_run (some id, t) =
      (some id, if is_due settings (count_run t) then flush (count_run t) else count_run t)

  unfoldable pub log_run :
      Text → RunPayload B → Tracker B.Dir G.Bucket → Option Text × Tracker B.Dir G.Bucket
  unfolding record_run after_run
  log_run run_name payload t = after_run (record_run B settings run_name payload t)
