-- ===== src/Rag/Pipeline/Client.antt =====
-- src/app/llm/openai_client.py: the clients of the provider, over the API of OpenAI, which is a parameter: none is an
-- exception of it.
use llmops_rag_api.Prelude.{ℕ, Option, none, some, List, [], ◌∷◌, map}
use llmops_rag_api.Prelude.Sort.{sort_by}
use llmops_rag_api.Text.{Text, strip}
use llmops_rag_api.Rag.Chroma.{Vector}
use llmops_rag_api.Rag.Pipeline.{EmbeddingResult, ChatResult, Provider}

-- A vector with the index of its text.
pub record EmbeddingItem : Type 0 where
  pub index : ℕ
  pub embedding : Vector

pub record EmbeddingResponse : Type 0 where
  pub data_ : List EmbeddingItem
  pub total_tokens : Option ℕ

pub record ChatResponse : Type 0 where
  pub content : Option Text
  pub model : Text
  pub prompt_tokens : Option ℕ
  pub completion_tokens : Option ℕ

pub record Api : Type 0 where
  pub create_embeddings : Text → List Text → Option EmbeddingResponse
  pub create_completion : Text → Text → Text → Option ChatResponse

-- `getattr(usage, name, 0) or 0`
abbrev pub count_or_zero : Option ℕ → ℕ
count_or_zero none = 0
count_or_zero (some n) = n

abbrev pub content_or_empty : Option Text → Text
content_or_empty none = []
content_or_empty (some t) = t

-- `response.model or self._model`
abbrev pub model_or : Text → Text → Text
model_or [] m = m
model_or (c ∷ s) m = c ∷ s

module _ (A : Api) where
  unfoldable pub embed : Text → List Text → Option EmbeddingResult
  unfolding sort_by
  embed model [] = some (record { vectors = []; tokens = 0 })
  embed model (t ∷ ts) = elim (A.create_embeddings model (t ∷ ts)) [
    | none ↦ none
    | some r ↦ some (record {
      vectors =
          map (λ (i : EmbeddingItem). i.embedding)
            (sort_by (λ (i : EmbeddingItem). i.index) r.data_);
      tokens = count_or_zero r.total_tokens;
    })
  ]

  unfoldable pub complete : Text → Text → Text → Option ChatResult
  complete model system_prompt user_prompt =
      elim (A.create_completion model system_prompt user_prompt) [
        | none ↦ none
        | some r ↦ some (record {
          text = strip (content_or_empty r.content);
          model = model_or r.model model;
          prompt_tokens = count_or_zero r.prompt_tokens;
          completion_tokens = count_or_zero r.completion_tokens;
        })
      ]

  -- The two clients as the pipeline uses them.
  unfoldable pub provider_of : Text → Text → Provider
  provider_of chat_model embedding_model = record {
    embed = embed embedding_model;
    complete = complete chat_model;
  }
