-- ===== src/Monitoring/Source.antt =====
-- src/app/monitoring/source.py: the query runs of one tracking database, and of the shards that the instances
-- have written. MLflow is a parameter: `runs` are the query runs that a database holds, newest first, and
-- `search_runs` is the call. Metrics are in the units of Monitoring/Drift.antt.
pub mod Shards
use llmops_rag_api.Prelude.{
  Option, ℕ, List, Bool, true, false, not, none, some, [], ◌∷◌, map, ◌==◌, if◌then◌else◌, take,
}
use llmops_rag_api.Prelude.Newest.{concat, sort_newest}
use llmops_rag_api.Monitoring.Drift.{QueryRecord}
use llmops_rag_api.Persistence.{Gcs, Tar}
use llmops_rag_api.Persistence.Listing.{Listing, list_snapshot_objects}
use llmops_rag_api.Persistence.Extract.{restore}
use llmops_rag_api.Text.{Text, text_eq, codes}

-- The metrics, tags and parameters of a run, as far as it has them.
pub record Run : Type 0 where
  pub refused_metric : Option ℕ
  pub grounded_tag : Option Text
  pub top_similarity_metric : Option ℕ
  pub chunks_metric : Option ℕ
  pub cost_metric : Option ℕ
  pub latency_metric : Option ℕ
  pub version_param : Option Text
  pub start_time : Option ℕ

-- `search_runs` gives none where the experiment does not exist.
pub record Mlflow : Type 1 where
  pub Db : Type 0
  pub runs : Db → Option (List Run)
  pub search_runs : Db → ℕ → Option (List Run)

abbrev pub or_zero : Option ℕ → ℕ
or_zero none = 0
or_zero (some n) = n

abbrev pub is_true_tag : Option Text → Bool
is_true_tag none = false
is_true_tag (some t) = text_eq t (codes "true")

abbrev pub or_empty : Option Text → Text
or_empty none = []
or_empty (some t) = t

-- `float(run.info.start_time or 0)`
abbrev pub started : Run → ℕ
started run = or_zero run.start_time

abbrev pub record_of : ℕ → Run → QueryRecord
record_of refused run = record {
  refused = not (refused == 0);
  grounded = is_true_tag run.grounded_tag;
  top_similarity = or_zero run.top_similarity_metric;
  retrieved_chunks = or_zero run.chunks_metric;
  cost_usd = or_zero run.cost_metric;
  latency_ms = or_zero run.latency_metric;
  prompt_version = or_empty run.version_param;
  started_at = started run;
}

-- A run without the metric is skipped.
abbrev pub put_record : Option ℕ → Run → List QueryRecord → List QueryRecord
put_record none run rest = rest
put_record (some refused) run rest = record_of refused run ∷ rest

unfoldable pub records_of : List Run → List QueryRecord
records_of [] = []
records_of (run ∷ runs) = let rest = records_of runs in put_record run.refused_metric run rest

module _ (M : Mlflow) where
  unfoldable pub read_tracking_db : ℕ → M.Db → List QueryRecord
  unfolding records_of
  read_tracking_db limit db = elim (M.search_runs db limit) [
    | none ↦ []
    | some runs ↦ records_of runs
  ]

  module _ (G : Gcs) {Dir : Type 0} (T : Tar Dir) (find_db : Dir → Option M.Db)
      (target : List Text) where
    -- The database of a shard: none if it does not restore or holds none.
    unfoldable pub shard_db : G.Bucket → Option M.Db
    shard_db b =
        let (result, dir) = restore G T true target none b in
        if result.ok then elim dir [ none ↦ none | some d ↦ find_db d ] else none

    unfoldable pub shard_records : ℕ → G.Bucket → List QueryRecord
    unfolding read_tracking_db
    shard_records limit b = elim (shard_db b) [ none ↦ [] | some db ↦ read_tracking_db limit db ]

    -- The records of the shards, merged.
    unfoldable pub merge_shards : ℕ → List G.Bucket → List QueryRecord
    unfolding sort_newest concat shard_records
    merge_shards limit shards = take limit (
        sort_newest (λ (r : QueryRecord). r.started_at) (concat (map (shard_records limit) shards)))

    -- `object` is the object of a name, in the bucket that is configured.
    unfoldable pub load_snapshot_queries :
        Listing → (Text → G.Bucket) → Text → ℕ → ℕ → List QueryRecord
    unfolding list_snapshot_objects merge_shards
    load_snapshot_queries S object bucket max_shards limit =
        elim (list_snapshot_objects S bucket max_shards) [
          | [] ↦ []
          | name ∷ names ↦ merge_shards limit (map object (name ∷ names))
        ]
