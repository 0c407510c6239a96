-- ===== src/Monitoring/Source/Shards.antt =====
-- What `load_snapshot_queries` of src/app/monitoring/source.py returns of all that the shards hold.
use llmops_rag_api.Prelude.{
  zero, suc, ◌≤◌, ◌≡◌, refl, ◌≢◌, inl, inr, none, some, [], ◌∷◌, map, All, Option-cases, sym, ap,
  ◌∙◌, arith, take_all,
}
use llmops_rag_api.Prelude.Newest.{concat, IsNewestFirst, newest, newest-concat}
use llmops_rag_api.Monitoring.Drift.{QueryRecord}
use llmops_rag_api.Monitoring.Source.{
  Run, Mlflow, records_of, started, read_tracking_db, shard_db, shard_records,
  load_snapshot_queries, ℕ, List, Option, take, Text, record_of, merge_shards, Listing,
  list_snapshot_objects,
}
use llmops_rag_api.Persistence.{Gcs, Tar}

-- The first `n` runs, if there is an experiment.
abbrev pub take_runs : ℕ → Option (List Run) → Option (List Run)
take_runs n none = none
take_runs n (some runs) = some (take n runs)

-- What the program relies on: a search gives the newest runs, as many as are asked for.
pub record IsMlflow (M : Mlflow) : Type 0 where
  pub search_runs-take : (db : M.Db) (n : ℕ) → M.search_runs db n ≡ take_runs n (M.runs db)
  pub runs-sorted :
      (db : M.Db) (runs : List Run) → M.runs db ≡ some runs → IsNewestFirst started runs

abbrev pub started_at : QueryRecord → ℕ
started_at r = r.started_at

-- Every run has the metric.
abbrev pub IsComplete : List Run → Type 0
IsComplete runs = All (λ (run : Run). run.refused_metric ≢ none) runs

nothing : (n : ℕ) → ◌≡◌ {A = List QueryRecord} [] (take n [])
nothing n = sym (take_all n [] (omega arith))

records_of-take :
    (n : ℕ) (runs : List Run)
    → IsComplete runs
    → records_of (take n runs) ≡ take n (records_of runs)
unfolding records_of
records_of-take zero runs h = refl
records_of-take (suc n) [] h = refl
records_of-take (suc n) (run ∷ runs) h = elim (Option-cases run.refused_metric) [
  | inl e ↦ absurd (h.0 e)
  | inr (m, e) ↦ rw e (ap (λ rest. record_of m run ∷ rest) (records_of-take n runs h.1))
]

records_of-All :
    (bound : ℕ) (runs : List Run)
    → All (λ (run : Run). started run ≤ bound) runs
    → All (λ r. started_at r ≤ bound) (records_of runs)
unfolding records_of
records_of-All bound [] h = tt
records_of-All bound (run ∷ runs) h = elim (Option-cases run.refused_metric) [
  | inl e ↦ rw e (records_of-All bound runs h.1)
  | inr (m, e) ↦ rw e (h.0, records_of-All bound runs h.1)
]

records_of-IsNewestFirst :
    (runs : List Run) → IsNewestFirst started runs → IsNewestFirst started_at (records_of runs)
unfolding records_of
records_of-IsNewestFirst [] h = tt
records_of-IsNewestFirst (run ∷ runs) h = elim (Option-cases run.refused_metric) [
  | inl e ↦ rw e (records_of-IsNewestFirst runs h.1)
  | inr (m, e) ↦ rw e (records_of-All (started run) runs h.0, records_of-IsNewestFirst runs h.1)
]

module _ (M : Mlflow) (L : IsMlflow M) where
  -- All that a database holds.
  abbrev pub held_records : Option (List Run) → List QueryRecord
  held_records none = []
  held_records (some runs) = records_of runs

  read_tracking_db-take :
      (n : ℕ) (db : M.Db)
      → ((runs : List Run) → M.runs db ≡ some runs → IsComplete runs)
      → read_tracking_db M n db ≡ take n (held_records (M.runs db))
  unfolding read_tracking_db
  read_tracking_db-take n db h = elim (Option-cases (M.runs db)) [
    | inl e ↦
        let found : M.search_runs db n ≡ none = L.search_runs-take db n ∙ ap (take_runs n) e in
        rw (found, read_tracking_db) (rw e (nothing n))
    | inr (runs, e) ↦
        let found : M.search_runs db n ≡ some (take n runs) =
          L.search_runs-take db n ∙ ap (take_runs n) e in
        rw (found, read_tracking_db) (rw e (records_of-take n runs (h runs e)))
  ]

  module _ (G : Gcs) {Dir : Type 0} (T : Tar Dir) (find_db : Dir → Option M.Db)
      (target : List Text) where
    abbrev pub held_by : Option M.Db → List QueryRecord
    held_by none = []
    held_by (some db) = held_records (M.runs db)

    -- All that a shard holds, if it can be read.
    abbrev pub whole_shard : G.Bucket → List QueryRecord
    whole_shard b = held_by (shard_db M G T find_db target b)

    -- A shard whose runs all have the metric.
    abbrev pub IsCompleteShard : G.Bucket → Type 0
    IsCompleteShard b =
        (db : M.Db) (runs : List Run)
        → shard_db M G T find_db target b ≡ some db
        → M.runs db ≡ some runs
        → IsComplete runs

    shard_records-take :
        (n : ℕ) (b : G.Bucket)
        → IsCompleteShard b
        → shard_records M G T find_db target n b ≡ take n (whole_shard b)
    unfolding shard_records
    shard_records-take n b h = elim (Option-cases (shard_db M G T find_db target b)) [
      | inl e ↦ rw (e, shard_records) (nothing n)
      | inr (db, e) ↦ rw (e, shard_records) (read_tracking_db-take n db (λ runs f. h db runs e f))
    ]

    whole_shard-IsNewestFirst : (b : G.Bucket) → IsNewestFirst started_at (whole_shard b)
    whole_shard-IsNewestFirst b = elim (Option-cases (shard_db M G T find_db target b)) [
      | inl e ↦ rw e tt
      | inr (db, e) ↦ rw e (elim (Option-cases (M.runs db)) [
        | inl f ↦ rw f tt
        | inr (runs, f) ↦ rw f (records_of-IsNewestFirst runs (L.runs-sorted db runs f))
      ])
    ]

    map-shards :
        (n : ℕ) (shards : List G.Bucket)
        → All IsCompleteShard shards
        → map (shard_records M G T find_db target n) shards ≡ map (take n) (map whole_shard shards)
    map-shards n [] h = refl
    map-shards n (b ∷ shards) h =
        ap (λ r. r ∷ map (shard_records M G T find_db target n) shards) (shard_records-take n b h.0)
        ∙ ap (λ rest. take n (whole_shard b) ∷ rest) (map-shards n shards h.1)

    whole_shards-IsNewestFirst :
        (shards : List G.Bucket) → All (IsNewestFirst started_at) (map whole_shard shards)
    whole_shards-IsNewestFirst [] = tt
    whole_shards-IsNewestFirst (b ∷ shards) =
        (whole_shard-IsNewestFirst b, whole_shards-IsNewestFirst shards)

    merge_shards-newest :
        (n : ℕ) (shards : List G.Bucket)
        → All IsCompleteShard shards
        → merge_shards M G T find_db target n shards
          ≡ newest started_at n (concat (map whole_shard shards))
    unfolding merge_shards newest
    merge_shards-newest n shards h =
        ap (λ parts. newest started_at n (concat parts)) (map-shards n shards h)
        ∙ newest-concat started_at n (map whole_shard shards) (whole_shards-IsNewestFirst shards)

    -- The records that are returned are the `n` newest of all that the shards that are listed and can be read
    -- hold, in the order of their times, though only `n` are read of each shard; where no run in a
    -- shard is older than the metric of refusals.
    pub load_snapshot_queries-newest :
        (S : Listing) (object : Text → G.Bucket) (bucket : Text) (max_shards n : ℕ)
        → let shards = map object (list_snapshot_objects S bucket max_shards) in
          All IsCompleteShard shards
          → load_snapshot_queries M G T find_db target S object bucket max_shards n
            ≡ newest started_at n (concat (map whole_shard shards))
    unfolding load_snapshot_queries newest concat
    load_snapshot_queries-newest S object bucket max_shards n h =
        by_names (list_snapshot_objects S bucket max_shards) h
      where
        none_left : newest started_at n [] ≡ []
        none_left = take_all n [] (omega arith)

        by_names :
            (names : List Text)
            → All IsCompleteShard (map object names)
            → elim names [
              | [] ↦ []
              | name ∷ rest ↦ merge_shards M G T find_db target n (map object (name ∷ rest))
            ]
              ≡ newest started_at n (concat (map whole_shard (map object names)))
        by_names [] h = sym none_left
        by_names (name ∷ rest) h = merge_shards-newest n (map object (name ∷ rest)) h
