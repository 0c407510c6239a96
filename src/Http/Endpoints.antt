-- ===== src/Http/Endpoints.antt =====
-- The endpoints `query` and `ingest` of src/app/main.py, with the requests and responses of src/app/schemas.py.
-- What the exceptions of the provider's client and of Chroma are to the handlers is a parameter. Durations and the run id are left out.
use llmops_rag_api.Prelude.{
  ℕ, ◌+◌, Bool, true, ◌&&◌, Option, none, some, List, [], ◌∷◌, leb, length,
}
use llmops_rag_api.Text.{Text}
use llmops_rag_api.Http.Errors.{
  Answer, refused_with, success, handle, admission, budget_exceeded, value_error, http_exception,
  Failure, raised_by,
}
use llmops_rag_api.Rag.Pipeline.Ingest.{
  Document, IngestResult, IngestEnd, bad_document, store_mismatched, store_failed, merge_failed,
  ingested, ingest, State,
}
use llmops_rag_api.Rag.VectorStore.{RetrievedChunk}
use llmops_rag_api.Rag.Pipeline.Query.{
  QueryResult, QueryEnd, over_budget, provider_failed, answered, query,
}
use llmops_rag_api.Rag.Chroma.{Chroma}
use llmops_rag_api.Persistence.{Gcs, Tar}
use llmops_rag_api.Rag.Pipeline.{Provider, Settings, Prompts, Call}
use llmops_rag_api.Rounding.{Rounding}
use llmops_rag_api.Tracking.SpendGuard.{Readings, SpendGuard}
use llmops_rag_api.Http.Upload.{check_file, rejected, accepted}
use llmops_rag_api.Rag.Pipeline.Ingest
use llmops_rag_api.Rag.Pipeline.Query

pub record QueryRequest : Type 0 where
  pub question : Text
  pub top_k : Option ℕ

abbrev pub within : ℕ → ℕ → ℕ → Bool
within low high n = leb low n && leb n high

abbrev pub is_top_k : Option ℕ → Bool
is_top_k none = true
is_top_k (some k) = within 1 20 k

-- The bounds of the fields.
unfoldable pub is_valid_query : QueryRequest → Bool
is_valid_query q = within 1 4000 (length q.question) && is_top_k q.top_k

pub record TokenUsage : Type 0 where
  pub prompt_tokens : ℕ
  pub completion_tokens : ℕ
  pub embedding_tokens : ℕ

unfoldable pub total_tokens : TokenUsage → ℕ
total_tokens u = u.prompt_tokens + u.completion_tokens + u.embedding_tokens

pub record QueryResponse : Type 0 where
  pub answer : Text
  pub sources : List RetrievedChunk
  pub usage : TokenUsage
  pub model : Text
  pub estimated_cost_usd : ℕ
  pub estimated_cost_inr : ℕ
  pub refused : Bool

unfoldable pub query_response : QueryResult → QueryResponse
query_response r = record {
  answer = r.answer;
  sources = r.sources;
  usage = record {
    prompt_tokens = r.prompt_tokens;
    completion_tokens = r.completion_tokens;
    embedding_tokens = r.embedding_tokens;
  };
  model = r.model;
  estimated_cost_usd = r.cost_usd;
  estimated_cost_inr = r.cost_inr;
  refused = r.refused;
}

unfoldable pub answer_query : Failure → Failure → QueryEnd → Answer QueryResponse
unfolding handle query_response
answer_query provider_error chroma_error (over_budget e) = refused_with (handle (budget_exceeded e))
answer_query provider_error chroma_error provider_failed =
    refused_with (handle (raised_by provider_error))
answer_query provider_error chroma_error Query.store_failed =
    refused_with (handle (raised_by chroma_error))
answer_query provider_error chroma_error (answered r) = success 200 (query_response r)

module _ (C : Chroma) (P : Provider) (settings : Settings) (rounding : Rounding)
    (provider_error chroma_error : Failure) (app_api_key : Text) (initialised : Bool) where
  unfoldable pub query_endpoint :
      (Text → Text)
      → Prompts
      → Readings
      → Readings
      → Option Text
      → QueryRequest
      → C.Dir
      → SpendGuard
      → Answer QueryResponse × SpendGuard × List Call
  unfolding admission is_valid_query answer_query query
  query_endpoint lower prompts checking recording x_api_key q d g =
      elim (admission app_api_key initialised x_api_key (is_valid_query q)) [
        | some e ↦ (refused_with (handle e), g, [])
        | none ↦
            let (end, g', calls) =
              query C P settings rounding lower prompts checking recording q.question q.top_k d g in
            (answer_query provider_error chroma_error end, g', calls)
      ]

-- The bounds of the documents of an ingest.
abbrev pub all_have_text : List Document → Bool
all_have_text [] = true
all_have_text (doc ∷ docs) = leb 1 (length doc.text) && all_have_text docs

unfoldable pub is_valid_ingest : List Document → Bool
is_valid_ingest docs = within 1 50 (length docs) && all_have_text docs

pub record IngestResponse : Type 0 where
  pub ingested_documents : ℕ
  pub ingested_chunks : ℕ
  pub collection_size : ℕ
  pub embedding_tokens : ℕ
  pub estimated_cost_usd : ℕ
  pub estimated_cost_inr : ℕ
  pub document_ids : List Text

unfoldable pub ingest_response : IngestResult → IngestResponse
ingest_response r = record {
  ingested_documents = length r.document_ids;
  ingested_chunks = r.chunk_count;
  collection_size = r.collection_size;
  embedding_tokens = r.embedding_tokens;
  estimated_cost_usd = r.cost_usd;
  estimated_cost_inr = r.cost_inr;
  document_ids = r.document_ids;
}

unfoldable pub answer_ingest : Failure → Failure → IngestEnd → Answer IngestResponse
unfolding handle ingest_response
answer_ingest provider_error chroma_error (Ingest.over_budget e) =
    refused_with (handle (budget_exceeded e))
answer_ingest provider_error chroma_error bad_document = refused_with (handle value_error)
answer_ingest provider_error chroma_error Ingest.provider_failed =
    refused_with (handle (raised_by provider_error))
answer_ingest provider_error chroma_error store_mismatched = refused_with (handle value_error)
answer_ingest provider_error chroma_error store_failed =
    refused_with (handle (raised_by chroma_error))
answer_ingest provider_error chroma_error merge_failed =
    refused_with (handle (raised_by chroma_error))
answer_ingest provider_error chroma_error (ingested r) = success 201 (ingest_response r)

module _ (G : Gcs) (C : Chroma) (T : Tar C.Dir) (enabled : Bool) (workspace : List Text)
    (P : Provider) (settings : Settings) (rounding : Rounding) (others : ℕ → G.Bucket → G.Bucket)
    (provider_error chroma_error : Failure) (app_api_key : Text) (initialised : Bool) where
  unfoldable pub ingest_endpoint :
      (Text → Text)
      → Readings
      → Readings
      → Option Text
      → List Document
      → State C.Dir G.Bucket
      → Answer IngestResponse × State C.Dir G.Bucket × List Call
  unfolding admission is_valid_ingest answer_ingest ingest
  ingest_endpoint sha256 checking recording x_api_key docs s =
      elim (admission app_api_key initialised x_api_key (is_valid_ingest docs)) [
        | some e ↦ (refused_with (handle e), s, [])
        | none ↦
            let (end, s', calls) =
              ingest G C T enabled workspace P settings rounding others sha256 checking recording
                docs s in
            (answer_ingest provider_error chroma_error end, s', calls)
      ]

  -- The endpoint of a file, with what the upload holds.
  unfoldable pub ingest_file_endpoint :
      (Text → Text)
      → (Text → Text)
      → (List ℕ → Option Text)
      → Readings
      → Readings
      → Option Text
      → Option Text
      → List ℕ
      → State C.Dir G.Bucket
      → Answer IngestResponse × State C.Dir G.Bucket × List Call
  unfolding admission answer_ingest ingest check_file
  ingest_file_endpoint sha256 lower decode checking recording x_api_key filename raw s =
      elim (admission app_api_key initialised x_api_key true) [
        | some e ↦ (refused_with (handle e), s, [])
        | none ↦ elim (check_file lower decode settings filename raw) [
          | rejected n ↦ (refused_with (handle (http_exception n)), s, [])
          | accepted doc ↦
              let (end, s', calls) =
                ingest G C T enabled workspace P settings rounding others sha256 checking recording
                  (doc ∷ []) s in
              (answer_ingest provider_error chroma_error end, s', calls)
        ]
      ]
