-- ===== src/Rag/Pipeline/Query.antt =====
-- `retrieve` and `query` of src/app/rag/pipeline.py.
use llmops_rag_api.Prelude.{◌++◌, ℕ, List, pos, ◌+◌, Bool, true, Option, none, some, [], ◌∷◌}
use llmops_rag_api.Rag.Pipeline.{
  ChatResult, Provider, Settings, Prompts, Call, embedded, completed, or_number, Text,
}
use llmops_rag_api.Rag.VectorStore.{RetrievedChunk, search}
use llmops_rag_api.Rag.Chroma.{Chroma, Vector}
use llmops_rag_api.Tracking.SpendGuard.{BudgetExceeded, Readings, SpendGuard, record_cost, check}
use llmops_rag_api.Rounding.{Rounding}
use llmops_rag_api.Text.{codes, decimal, contains}
use llmops_rag_api.Tracking.Cost.{estimate_cost_usd, usd_to_inr}
use llmops_rag_api.Rag.Chunking.{blank_lines}

pub record QueryResult : Type 0 where
  pub answer : Text
  pub sources : List RetrievedChunk
  pub model : Text
  pub prompt_tokens : ℕ
  pub completion_tokens : ℕ
  pub embedding_tokens : ℕ
  pub cost_usd : ℕ
  pub cost_inr : ℕ
  pub refused : Bool

-- How a query ends: the exception of the guard, one of the provider, one of the store, or a result.
pub data QueryEnd : Type 0 where
  over_budget : BudgetExceeded → QueryEnd
  provider_failed : QueryEnd
  store_failed : QueryEnd
  answered : QueryResult → QueryEnd

-- `"\n\n".join(f"[{i}] {chunk.text}" …)`, from the index `i` on.
unfoldable pub context_from : ℕ → List RetrievedChunk → Text
context_from i [] = []
context_from i (c ∷ []) = codes "[" ++ (decimal i ++ (codes "] " ++ c.text))
context_from i (c ∷ d ∷ cs) =
    let rest = context_from (i + 1) (d ∷ cs) in
    codes "[" ++ (decimal i ++ (codes "] " ++ (c.text ++ (blank_lines ++ rest))))

unfoldable pub build_context : List RetrievedChunk → Text
unfolding context_from
build_context cs = context_from 1 cs

abbrev pub refusal_marker : Text
refusal_marker = codes "i don't know based on the provided documents"

-- `embedded.vectors[0] if embedded.vectors else []`
abbrev pub first_vector : List Vector → Vector
first_vector [] = []
first_vector (v ∷ _) = v

-- How a retrieval ends: an exception of the provider or of the store, or the hits and the tokens of the
-- embedding.
pub data Retrieval : Type 0 where
  embed_failed search_failed : Retrieval
  retrieved : List RetrievedChunk → ℕ → Retrieval

abbrev pub retrieval_of : ℕ → Option (List RetrievedChunk) → Retrieval
retrieval_of tokens none = search_failed
retrieval_of tokens (some hits) = retrieved hits tokens

module _ (C : Chroma) (P : Provider) (settings : Settings) (rounding : Rounding) where
  unfoldable pub hits_for : Vector → ℕ → C.Dir → Option (List RetrievedChunk)
  hits_for [] k d = some []
  hits_for (x ∷ v) k d =
      search C rounding d (x ∷ v) k settings.min_similarity settings.min_similarity_ratio

  unfoldable pub retrieve : Text → Option ℕ → C.Dir → Retrieval
  unfolding hits_for
  retrieve question top_k d = elim (P.embed (question ∷ [])) [
    | none ↦ embed_failed
    | some e ↦
        retrieval_of e.tokens (hits_for (first_vector e.vectors) (or_number top_k settings.top_k) d)
  ]

  -- The result where nothing matched.
  unfoldable pub without_context : Prompts → ℕ → QueryResult
  without_context prompts tokens =
      let cost = estimate_cost_usd settings.embedding_model tokens 0 in
      record {
        answer = prompts.no_context_answer;
        sources = [];
        model = settings.chat_model;
        prompt_tokens = 0;
        completion_tokens = 0;
        embedding_tokens = tokens;
        cost_usd = cost;
        cost_inr = usd_to_inr rounding cost settings.inr_rate;
        refused = true;
      }

  -- The result of a completion; `lower` is `str.lower`.
  unfoldable pub with_context : (Text → Text) → List RetrievedChunk → ℕ → ChatResult → QueryResult
  with_context lower hits tokens c =
      let cost =
        estimate_cost_usd c.model c.prompt_tokens c.completion_tokens
        + estimate_cost_usd settings.embedding_model tokens 0 in
      record {
        answer = c.text;
        sources = hits;
        model = c.model;
        prompt_tokens = c.prompt_tokens;
        completion_tokens = c.completion_tokens;
        embedding_tokens = tokens;
        cost_usd = cost;
        cost_inr = usd_to_inr rounding cost settings.inr_rate;
        refused = contains (lower c.text) refusal_marker;
      }

  unfoldable pub generate :
      (Text → Text)
      → Prompts
      → Readings
      → Text
      → List RetrievedChunk
      → ℕ
      → SpendGuard
      → QueryEnd × SpendGuard × List Call
  unfolding with_context build_context
  generate lower prompts recording question hits tokens g =
      let user_prompt = prompts.render_user (build_context hits) question in
      let calls = embedded (question ∷ []) ∷ completed prompts.answer_system user_prompt ∷ [] in
      elim (P.complete prompts.answer_system user_prompt) [
        | none ↦ (provider_failed, g, calls)
        | some c ↦
            let outcome = with_context lower hits tokens c in
            (answered outcome, record_cost recording (pos outcome.cost_usd) g, calls)
      ]

  -- What follows on the retrieval.
  unfoldable pub respond :
      (Text → Text)
      → Prompts
      → Readings
      → Text
      → List RetrievedChunk
      → ℕ
      → SpendGuard
      → QueryEnd × SpendGuard × List Call
  unfolding generate without_context
  respond lower prompts recording question [] tokens g =
      let outcome = without_context prompts tokens in
      (
        answered outcome,
        record_cost recording (pos outcome.cost_usd) g,
        embedded (question ∷ []) ∷ [],
      )
  respond lower prompts recording question (h ∷ hs) tokens g =
      generate lower prompts recording question (h ∷ hs) tokens g

  -- `query(question, top_k)`: its end, the guard after it, and the calls of the provider in order.
  unfoldable pub query :
      (Text → Text)
      → Prompts
      → Readings
      → Readings
      → Text
      → Option ℕ
      → C.Dir
      → SpendGuard
      → QueryEnd × SpendGuard × List Call
  unfolding respond retrieve
  query lower prompts checking recording question top_k d g =
      let (refusal, g1) = check rounding checking g in
      elim refusal [
        | some e ↦ (over_budget e, g1, [])
        | none ↦ elim (retrieve question (some (or_number top_k settings.top_k)) d) [
          | embed_failed ↦ (provider_failed, g1, embedded (question ∷ []) ∷ [])
          | search_failed ↦ (store_failed, g1, embedded (question ∷ []) ∷ [])
          | retrieved hits tokens ↦ respond lower prompts recording question hits tokens g1
        ]
      ]
