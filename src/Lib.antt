-- ===== src/Lib.antt =====
-- llmops-rag-api: a retrieval-augmented question service over FastAPI, ChromaDB, an OpenAI-compatible
-- provider and a snapshot object in Google Cloud Storage. This library models its core and proves
-- what keeps it correct.
--
-- The parts and how they work together. A request passes the rate limiter of its client
-- (src/app/rate_limit.py). An ingest (src/app/rag/pipeline.py) asks the spend guard
-- (src/app/tracking/spend_guard.py), cuts the documents into chunks (src/app/rag/chunking.py), lets
-- the provider embed them, puts them into the vector store (src/app/rag/vectorstore.py), records the
-- cost (src/app/tracking/cost.py) with the guard, and uploads the store's directory as a snapshot
-- (src/app/persistence.py) on the condition that the object has the generation that the instance last
-- saw; on a conflict it merges its chunks into the newer snapshot and tries again, at most three
-- times. A query asks the guard, embeds the question, searches the store, lets the provider answer
-- from the hits, and records both costs. The endpoints of src/app/main.py turn what the pipeline ends
-- with into an answer. The evaluation scores the answers to a golden set and sweeps the parameters of
-- the retrieval; the drift monitoring reads the recorded queries of all instances back
-- (src/app/monitoring/source.py) and compares them with a reference (src/app/monitoring/drift.py).
--
-- Which file models what:
--   RateLimit.antt            src/app/rate_limit.py: RateLimiter, allow, _evict_locked;
--                             RateLimit/RetryAfter.antt: the Retry-After header of src/app/main.py
--   Tracking/Cost.antt        src/app/tracking/cost.py: PRICING, price_for, estimate_cost_usd, usd_to_inr
--   Tracking/SpendGuard.antt  src/app/tracking/spend_guard.py: check, record, snapshot and the roll of
--                             the window; Tracking/SpendGuard/Service.antt lets requests overlap
--   Tracking/Tracker.antt     src/app/tracking/mlflow_tracker.py: log_run, flush, _truncate_params;
--                             Tracking/Tracker/Requests.antt lets requests overlap
--   Rag/Chunking.antt         src/app/rag/chunking.py: normalize, split_text, chunk_document
--   Rag/Chroma.antt           ChromaDB as a parameter, and the laws the program relies on
--   Rag/VectorStore.antt      src/app/rag/vectorstore.py: add, search
--   Persistence.antt          src/app/persistence.py: save; Persistence/Extract.antt: _safe_extract, restore
--   Rag/Snapshot.antt         src/app/rag/pipeline.py: _save_snapshot
--   Rag/Snapshot/Startup.antt src/app/dependencies.py: build_pipeline, as far as it restores the store
--   Rag/Pipeline.antt         what ingest and query share; Rag/Pipeline/Ingest.antt: ingest;
--                             Rag/Pipeline/Query.antt: retrieve, query, build_context;
--                             Rag/Pipeline/Client.antt: src/app/llm/openai_client.py
--   Rag/Prompts.antt          src/app/rag/prompts.py: load_templates, _validate, fingerprint, the lock, render
--   Persistence/Listing.antt  src/app/persistence.py: list_snapshot_objects
--   Monitoring/Ks.antt        src/app/monitoring/drift.py: ks_statistic, ks_threshold
--   Monitoring/Drift.antt     src/app/monitoring/drift.py: summarise, from_eval, two_proportion_z, compare,
--                             diagnose
--   Monitoring/Source.antt    src/app/monitoring/source.py: _read_tracking_db, load_snapshot_queries
--   Evaluation/Dataset.antt   src/app/evaluation/dataset.py: GoldenCase, load_cases
--   Evaluation/Metrics.antt   src/app/evaluation/metrics.py: score_case, summarise
--   Evaluation/Runner.antt    src/app/evaluation/runner.py: Thresholds, ingest_corpus, run_evaluation, write_baseline
--   Evaluation/Sweep.antt     src/app/evaluation/sweep.py: build_grid, evaluate_point, score, run_sweep
--   Http.antt                 src/app/main.py: _client_key, rate_limit_middleware;
--                             src/app/dependencies.py: require_api_key; Http/Upload.antt: the checks
--                             of ingest_file; Http/Errors.antt: the exception handlers and get_pipeline;
--                             Http/Endpoints.antt: query, ingest, ingest_file, src/app/schemas.py
--   Text.antt, Dict.antt, Rounding.antt   Python's str, dict and round, as far as they are used
--   Prelude.antt              lists, integers, sorting and tests that the parts share
-- The modules below a part hold its proofs; Tests.antt holds runs of the model and the theorems at
-- concrete inputs.
--
-- State and operations. A class is a record, and a method is a function from the record, and the
-- readings of the clock that it makes, to its result and the record after it. An exception is a
-- constructor of the result. What runs under a lock is one step, and so is the increment of the tracker's
-- counter, which has no lock; where requests or instances overlap, this
-- is a step relation (the guard, the tracker) or a function that changes the object before each call (the
-- snapshot).
--
-- Units. Money is in units of 1e-8 USD, which is what the source rounds to, so the sums are exact;
-- similarities of the search are in units of 1e-8, those that it reports of 1e-4; time is in nanoseconds; tokens of the limiter are integers in a unit
-- that makes its rate exact. Float error is not modelled.
--
-- Parameters. ChromaDB, GCS, tarfile, json, SHA-256, str.lower, bytes.decode, string.Template, the
-- provider, MLflow, the listing of GCS and round are arguments of the definitions; the laws that a
-- theorem uses of them are records (IsLawful, IsGcs, IsTar, IsMlflow, IsListing, Rounding), and the
-- modules of Tests and Rounding.antt give functions that fulfil them.
--
-- Bounds and fuel. The merge loop runs on the number of rounds that are left, which is the source's
-- own limit of three. The windows of a hard split run on the length of the text, which is enough since
-- each window advances by at least one character. The decimal text of a number runs on the number plus one.
-- The loop of ks_statistic runs on the sum of the lengths of the samples, which is enough since every round
-- passes a value.
-- All other recursion is structural.
--
-- Not modelled: log lines, durations and the payloads for the tracker; the constructor and reset of the
-- vector store; the clients made at the startup, the trace middleware and the two ops endpoints of the
-- HTTP application; the rest of the settings; the initialisation of the tracker, and the printed reports.
pub mod Prelude
pub mod Text
pub mod Rounding
pub mod Dict
pub mod RateLimit
pub mod Tracking
pub mod Rag
pub mod Persistence
pub mod Evaluation
pub mod Monitoring
pub mod Http
pub mod Tests
