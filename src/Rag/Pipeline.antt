-- ===== src/Rag/Pipeline.antt =====
-- What ingest and query of src/app/rag/pipeline.py share: the settings they read, the results of the
-- model provider (src/app/llm/openai_client.py) and the calls that a request makes. The provider is
-- a parameter; `none` stands for an exception of it. Durations, log lines and the tracker are not modelled.
pub mod Client
pub mod Query
pub mod Ingest
pub mod Accounts
pub mod Billing
pub mod Unbilled
use llmops_rag_api.Prelude.{List, Option, ℕ, zero, suc, Bool, none, some}
use llmops_rag_api.Rag.Chroma.{Vector}
use llmops_rag_api.Text.{Text}

pub record EmbeddingResult : Type 0 where
  pub vectors : List Vector
  pub tokens : ℕ

pub record ChatResult : Type 0 where
  pub text : Text
  pub model : Text
  pub prompt_tokens : ℕ
  pub completion_tokens : ℕ

pub record Provider : Type 0 where
  pub embed : List Text → Option EmbeddingResult
  pub complete : Text → Text → Option ChatResult

-- The settings that the pipeline reads. `min_similarity` and its ratio are in units of 1e-8, the rate
-- in units of 1e-2 INR per USD.
pub record Settings : Type 0 where
  pub chat_model : Text
  pub embedding_model : Text
  pub top_k : ℕ
  pub min_similarity : ℕ
  pub min_similarity_ratio : ℕ
  pub inr_rate : ℕ
  pub chunk_size : ℕ
  pub chunk_overlap : ℕ
  pub max_ingest_chars : ℕ
  pub snapshot_on_ingest : Bool

-- The prompts that a query uses. Filling the placeholders is `string.Template` of Python.
pub record Prompts : Type 0 where
  pub answer_system : Text
  pub no_context_answer : Text
  pub render_user : Text → Text → Text

-- A call of the provider.
pub data Call : Type 0 where
  embedded : List Text → Call
  completed : Text → Text → Call

-- `a or b` of two numbers.
abbrev pub or_number : Option ℕ → ℕ → ℕ
or_number none d = d
or_number (some zero) d = d
or_number (some (suc n)) d = suc n
