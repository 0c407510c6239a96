-- ===== src/Rag/Pipeline/Ingest.antt =====
-- `ingest` of src/app/rag/pipeline.py.
use llmops_rag_api.Prelude.{
  ◌++◌, List, pos, ℕ, Bool, not, ◌&&◌, Option, none, some, [], ◌∷◌, map, ◌==◌, if◌then◌else◌, ltb,
  length,
}
use llmops_rag_api.Rag.Pipeline.{Provider, Settings, Call, embedded, Text}
use llmops_rag_api.Rag.VectorStore.{add, added, value_error, store_error}
use llmops_rag_api.Rag.Snapshot.{Instance, Ended, crashed, ended, save_snapshot}
use llmops_rag_api.Rag.Chroma.{Chroma, Vector}
use llmops_rag_api.Tracking.SpendGuard.{BudgetExceeded, SpendGuard, Readings, record_cost, check}
use llmops_rag_api.Persistence.{Gcs, Tar}
use llmops_rag_api.Dict.{Dict}
use llmops_rag_api.Rag.Chunking.{Chunk, resolve_id, chunk_document}
use llmops_rag_api.Rounding.{Rounding}
use llmops_rag_api.Tracking.Cost.{estimate_cost_usd, usd_to_inr}

pub record Document : Type 0 where
  pub text : Text
  pub doc_id : Option Text
  pub metadata : Dict Text

pub record IngestResult : Type 0 where
  pub document_ids : List Text
  pub chunk_count : ℕ
  pub collection_size : ℕ
  pub embedding_tokens : ℕ
  pub cost_usd : ℕ
  pub cost_inr : ℕ

-- How an ingest ends: an exception of the guard, of a check of the input, of the provider, the
-- `ValueError` of the store or another exception of it, of the store that a snapshot is merged in, or a result.
pub data IngestEnd : Type 0 where
  over_budget : BudgetExceeded → IngestEnd
  bad_document : IngestEnd
  provider_failed : IngestEnd
  store_mismatched : IngestEnd
  store_failed : IngestEnd
  merge_failed : IngestEnd
  ingested : IngestResult → IngestEnd

module _ (sha256 : Text → Text) (settings : Settings) where
  -- The chunks of a document; `none` is a `ValueError`.
  unfoldable pub chunks_of : Document → Option (List Chunk)
  chunks_of doc =
      if ltb settings.max_ingest_chars (length doc.text)
      then none
      else chunk_document sha256 doc.text (some (resolve_id sha256 doc.doc_id doc.text))
          doc.metadata settings.chunk_size settings.chunk_overlap

  -- A document without chunks is passed over.
  abbrev pub put_document :
      Text → Option (List Chunk) → Option (List Chunk × List Text) → Option (List Chunk × List Text)
  put_document id none rest = none
  put_document id (some cs) none = none
  put_document id (some []) (some rest) = some rest
  put_document id (some (c ∷ cs)) (some (chunks, ids)) = some ((c ∷ cs) ++ chunks, id ∷ ids)

  -- The loop over the documents: all chunks, and the ids of the documents that have some.
  unfoldable pub prepare : List Document → Option (List Chunk × List Text)
  unfolding chunks_of
  prepare [] = some ([], [])
  prepare (doc ∷ docs) =
      let rest = prepare docs in
      put_document (resolve_id sha256 doc.doc_id doc.text) (chunks_of doc) rest

-- What an ingest reads and writes: the guard, the instance with its store, and the object of GCS.
pub record State (D B : Type 0) : Type 0 where
  pub guard : SpendGuard
  pub instance_state : Instance D
  pub bucket : B

module _ (G : Gcs) (C : Chroma) (T : Tar C.Dir) (enabled : Bool) (workspace : List Text)
    (P : Provider) (settings : Settings) (rounding : Rounding)
    (others : ℕ → G.Bucket → G.Bucket) where
  unfoldable pub ingest_result : List Text → List Chunk → ℕ → C.Dir → IngestResult
  ingest_result ids chunks tokens d =
      let cost = estimate_cost_usd settings.embedding_model tokens 0 in
      record {
        document_ids = ids;
        chunk_count = length chunks;
        collection_size = C.count d;
        embedding_tokens = tokens;
        cost_usd = cost;
        cost_inr = usd_to_inr rounding cost settings.inr_rate;
      }

  abbrev pub end_of : Ended → IngestResult → IngestEnd
  end_of crashed outcome = merge_failed
  end_of (ended r attempts) outcome = ingested outcome

  -- From `estimate_cost_usd` on, with the store that has the chunks.
  unfoldable pub account :
      Readings
      → List Text
      → List Chunk
      → List Vector
      → ℕ
      → State C.Dir G.Bucket
      → IngestEnd × State C.Dir G.Bucket
  unfolding ingest_result
  account recording ids chunks vectors tokens s =
      let outcome = ingest_result ids chunks tokens s.instance_state.dir in
      let guard' = record_cost recording (pos outcome.cost_usd) s.guard in
      if not (length chunks == 0) && (settings.snapshot_on_ingest && enabled)
      then (let run =
            save_snapshot G C T enabled workspace others chunks vectors s.instance_state s.bucket in
          (
            end_of run.0.0 outcome,
            record { guard = guard'; instance_state = run.0.1; bucket = run.1 },
          ))
      else (ingested outcome, record s { guard = guard' })

  -- `embed` and `add`, if there is a chunk.
  unfoldable pub store_chunks :
      Readings
      → List Text
      → List Chunk
      → State C.Dir G.Bucket
      → IngestEnd × State C.Dir G.Bucket × List Call
  unfolding account
  store_chunks recording ids [] s = let (end, s') = account recording ids [] [] 0 s in (end, s', [])
  store_chunks recording ids (c ∷ cs) s =
      let texts = map (λ (x : Chunk). x.text) (c ∷ cs) in
      elim (P.embed texts) [
        | none ↦ (provider_failed, s, embedded texts ∷ [])
        | some e ↦ elim (add C s.instance_state.dir (c ∷ cs) e.vectors) [
          | value_error ↦ (store_mismatched, s, embedded texts ∷ [])
          | store_error ↦ (store_failed, s, embedded texts ∷ [])
          | added n d ↦
              let (end, s') =
                account recording ids (c ∷ cs) e.vectors e.tokens
                  (record s { instance_state = record (s.instance_state) { dir = d } }) in
              (end, s', embedded texts ∷ [])
        ]
      ]

  unfoldable pub ingest :
      (Text → Text)
      → Readings
      → Readings
      → List Document
      → State C.Dir G.Bucket
      → IngestEnd × State C.Dir G.Bucket × List Call
  unfolding store_chunks prepare
  ingest sha256 checking recording docs s =
      let (refusal, guard1) = check rounding checking s.guard in
      let s1 = record s { guard = guard1 } in
      elim refusal [
        | some e ↦ (over_budget e, s1, [])
        | none ↦ elim (prepare sha256 settings docs) [
          | none ↦ (bad_document, s1, [])
          | some (chunks, ids) ↦ store_chunks recording ids chunks s1
        ]
      ]
