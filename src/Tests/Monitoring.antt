-- ===== src/Tests/Monitoring.antt =====
-- Runs of src/app/monitoring and of the listing of snapshots.
use llmops_rag_api.Prelude.Newest.{newest, IsNewestFirst, concat}
use llmops_rag_api.Prelude.Sort.{sort_by, Shuffle}
use llmops_rag_api.Prelude.{
  ℕ, List, [], ◌∷◌, ◌≡◌, refl, ◌≤◌, arith, ◌*◌, ◌<◌, sym, ◌≢◌, ◌↔◌, true, false, Option, none, some,
  map, take, length, All, In, if◌then◌else◌, ◌++◌, ◌⊎◌,
}
use llmops_rag_api.Monitoring.Drift.{
  Baseline, WindowStats, compare_window, other_version, diagnose, z_reaches, moved, z_warn, ks_warn,
  falls_short, has_signal, not_enough, content_gap, no_drift, retrieval_regression, off_topic,
}
use llmops_rag_api.Monitoring.Drift.Quiet.{compare_window-quiet}
use llmops_rag_api.Monitoring.Ks.{ks_statistic, skip, distance, reaches_threshold}
use llmops_rag_api.Monitoring.Ks.Largest.{gap, ks_statistic-largest}
use llmops_rag_api.Text.{codes, Text, text_eq}
use llmops_rag_api.Monitoring.Ks.Skip.{count_le}
use llmops_rag_api.Monitoring.Source.{
  Run, Mlflow, load_snapshot_queries, shard_db, started, merge_shards,
}
use llmops_rag_api.Monitoring.Source.Shards.{
  IsMlflow, IsComplete, started_at, whole_shard, load_snapshot_queries-newest,
}
use llmops_rag_api.Rag.Chroma.{Item}
use llmops_rag_api.Tests.Memory.{Slot, gcs, tar, read_items}
use llmops_rag_api.Persistence.Listing.{
  Listing, IsListing, list_snapshot_objects, Blob, names_of, updated_of_blob,
  list_snapshot_objects-newest,
}
use llmops_rag_api.Persistence.Extract.{restore, unsafe_member}
use llmops_rag_api.Monitoring.Drift.Diagnosis.{diagnose-Meaning}

abbrev lower : List ℕ
lower = 1 ∷ 3 ∷ 2 ∷ []

abbrev higher : List ℕ
higher = 3 ∷ 5 ∷ []

ks_statistic_run : ks_statistic lower higher ≡ 4
unfolding ks_statistic skip sort_by
ks_statistic_run = refl

ks_statistic-largest_example :
    ((v : ℕ) → gap lower higher v ≤ ks_statistic lower higher)
    × ((v : ℕ) × (gap lower higher v ≡ ks_statistic lower higher))
ks_statistic-largest_example = ks_statistic-largest lower higher

abbrev reference : Baseline
reference = record {
  n = 61;
  refusals = 2;
  ungrounded = 0;
  similarity_sum = 16_000;
  chunk_sum = 183;
  similarities = 7_000 ∷ 9_000 ∷ [];
  prompt_version = codes "v3";
}

abbrev healthy : WindowStats
healthy = record {
  n = 61;
  refusals = 1;
  ungrounded = 0;
  similarity_sum = 32_000;
  chunk_sum = 244;
  cost_sum = 9_000;
  p95_latency_ms = 120_000;
  similarities = 7_000 ∷ 9_000 ∷ [];
  prompt_versions = codes "v3" ∷ [];
}

no_gap : (k : ℕ) → distance (k * 2) (k * 2) ≡ 0
no_gap k = ground arith

same : (v : ℕ) → gap healthy.similarities reference.similarities v ≡ 0
same v = no_gap (count_le v healthy.similarities)

compare_window-quiet_example : compare_window reference healthy ≡ []
unfolding other_version text_eq
compare_window-quiet_example =
    compare_window-quiet reference healthy (omega arith) (omega arith) (omega arith) same
      (omega arith) refl

-- Refusals have risen, and nothing else.
abbrev refusing : WindowStats
refusing = record healthy { refusals = 20 }

refusing_gap : diagnose reference refusing (compare_window reference refusing) ≡ content_gap
unfolding diagnose compare_window z_reaches moved ks_statistic skip reaches_threshold falls_short
    other_version text_eq has_signal sort_by
refusing_gap = refl

diagnose-Meaning_example :
    let v = diagnose reference refusing (compare_window reference refusing) in
    let refused = z_reaches z_warn 20 61 2 61 in
    let ungrounded = z_reaches z_warn 0 61 0 61 in
    let scores = moved ks_warn reference refusing in
    let fewer = falls_short 3 4 reference refusing in
    ((v ≡ not_enough) ↔ (61 < 30))
    × (30 ≤ 61
        → ((v ≡ no_drift) ↔ (compare_window reference refusing ≡ []))
          × ((v ≡ content_gap)
              ↔ ((refused ≡ true) × (ungrounded ≡ false) × (scores ≡ false) × (fewer ≡ false)))
          × ((v ≡ retrieval_regression)
              ↔ ((refused ≡ true) × (ungrounded ≡ false) × (fewer ≡ true)))
          × ((v ≡ off_topic) ↔ ((refused ≡ true) × (ungrounded ≡ true))))
diagnose-Meaning_example = diagnose-Meaning reference refusing

-- A tracking database is the list of its runs, kept newest first.
abbrev run_at : ℕ → Run
run_at t = record {
  refused_metric = some 0;
  grounded_tag = some (codes "true");
  top_similarity_metric = some 8_000;
  chunks_metric = some 3;
  cost_metric = some 900;
  latency_metric = none;
  version_param = some (codes "v3");
  start_time = some t;
}

-- The databases that there are: of the runs at 9 and 4, and of the runs at 7 and 5.
data Db : Type 0 where
  first second : Db

abbrev runs_in : Db → List Run
runs_in first = run_at 9 ∷ run_at 4 ∷ []
runs_in second = run_at 7 ∷ run_at 5 ∷ []

abbrev mlflow : Mlflow
mlflow = record {
  Db = Db;
  runs = λ db. some (runs_in db);
  search_runs = λ db n. some (take n (runs_in db));
}

runs_in-sorted :
    (db : Db) (runs : List Run)
    → ◌≡◌ {A = Option (List Run)} (some (runs_in db)) (some runs)
    → IsNewestFirst started runs
runs_in-sorted first runs e =
    let same : runs_in first ≡ runs = cc e in rw (← same) ((omega arith, tt), (tt, tt))
runs_in-sorted second runs e =
    let same : runs_in second ≡ runs = cc e in rw (← same) ((omega arith, tt), (tt, tt))

mlflow-IsMlflow : IsMlflow mlflow
mlflow-IsMlflow = record { search_runs-take = λ db n. refl; runs-sorted = runs_in-sorted }

runs_in-IsComplete :
    (db : Db) (runs : List Run)
    → ◌≡◌ {A = Option (List Run)} (some (runs_in db)) (some runs)
    → IsComplete runs
runs_in-IsComplete first runs e =
    let same : runs_in first ≡ runs = cc e in rw (← same) ((λ h. cc h), ((λ h. cc h), tt))
runs_in-IsComplete second runs e =
    let same : runs_in second ≡ runs = cc e in rw (← same) ((λ h. cc h), ((λ h. cc h), tt))

-- The directory of the first shard has no item, the one of the second has.
abbrev find_db : List Item → Option Db
find_db [] = some first
find_db (_ ∷ _) = some second

abbrev data_dir : List Text
data_dir = codes "data" ∷ []

abbrev blob_at : ℕ → Text → Blob
blob_at t name = record { name = name; updated = some t }

abbrev listing : Listing
listing = record {
  objects =
      blob_at 1 (codes "a")
      ∷ blob_at 5 (codes "b")
      ∷ blob_at 2 (codes "c")
      ∷ blob_at 3 (codes "d")
      ∷ blob_at 9 (codes "e")
      ∷ [];
  list_blobs = λ n. some (
      take n (
        blob_at 1 (codes "a")
        ∷ blob_at 5 (codes "b")
        ∷ blob_at 2 (codes "c")
        ∷ blob_at 3 (codes "d")
        ∷ blob_at 9 (codes "e")
        ∷ []));
}

listing-IsListing : IsListing listing
listing-IsListing = record {
  list_blobs-take = λ n bs e. let same : take n listing.objects ≡ bs = cc e in sym same;
}

-- The object that was written last is the fifth by name.
list_snapshot_objects-newest_example :
    let names = list_snapshot_objects listing (codes "shared") 1 in
    let first = take 4 listing.objects in
    ((chosen : List Blob) × (others : List Blob) × (names ≡ names_of chosen)
      × Shuffle first (chosen ++ others)
      × (length listing.objects ≤ 4 → Shuffle listing.objects (chosen ++ others))
      × ((length chosen ≡ 1) ⊎ ((length chosen < 1) × (others ≡ [])))
      × IsNewestFirst updated_of_blob chosen
      × All (λ o. All (λ c. updated_of_blob o ≤ updated_of_blob c) chosen) others)
    × ((name : Text) → All (λ b. name ≢ b.name) first → ¬ In name names)
list_snapshot_objects-newest_example =
    list_snapshot_objects-newest listing (codes "shared") 1 (take 4 listing.objects)
      listing-IsListing refl refl

latest_missed : list_snapshot_objects listing (codes "shared") 1 ≡ codes "b" ∷ []
unfolding list_snapshot_objects
latest_missed = refl

abbrev object_of : Text → Slot
object_of name =
    if text_eq name (codes "b")
    then (1, some [])
    else if text_eq name (codes "c")
    then (4, none)
    else (
      2,
      some (
          record { name = codes "id"; content = codes "a" }
          ∷ record { name = codes "document"; content = codes "a" }
          ∷ []),
    )

load_snapshot_queries_run :
    map started_at
      (load_snapshot_queries mlflow gcs tar find_db data_dir listing object_of (codes "shared") 5 3)
    ≡ 9 ∷ 7 ∷ 7 ∷ []
unfolding load_snapshot_queries merge_shards list_snapshot_objects shard_db restore unsafe_member
    text_eq read_items
load_snapshot_queries_run = refl

load_snapshot_queries-newest_example :
    load_snapshot_queries mlflow gcs tar find_db data_dir listing object_of (codes "shared") 5 3
    ≡ newest started_at 3 (
        concat (
          map
            (whole_shard mlflow mlflow-IsMlflow gcs tar find_db data_dir)
            (map object_of (list_snapshot_objects listing (codes "shared") 5))))
unfolding list_snapshot_objects
load_snapshot_queries-newest_example =
    load_snapshot_queries-newest mlflow mlflow-IsMlflow gcs tar find_db data_dir listing object_of
      (codes "shared") 5 3
      (
        (λ db runs e f. runs_in-IsComplete db runs f),
        (
          (λ db runs e f. runs_in-IsComplete db runs f),
          (
            (λ db runs e f. runs_in-IsComplete db runs f),
            (
              (λ db runs e f. runs_in-IsComplete db runs f),
              ((λ db runs e f. runs_in-IsComplete db runs f), tt),
            ),
          ),
        ),
      )
