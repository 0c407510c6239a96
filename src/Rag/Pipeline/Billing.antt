-- ===== src/Rag/Pipeline/Billing.antt =====
-- What an ingest of src/app/rag/pipeline.py stores and records, on each of its ends.
use llmops_rag_api.Prelude.{pos, ℕ, ◌≡◌, ◌⊎◌, Bool, List, length, none, some, [], ◌∷◌, map}
use llmops_rag_api.Rag.Pipeline.{Provider, Settings, Call, Text, embedded, EmbeddingResult}
use llmops_rag_api.Rag.Pipeline.Ingest.{
  IngestResult, IngestEnd, State, merge_failed, ingested, provider_failed, store_failed,
  store_mismatched,
}
use llmops_rag_api.Rag.Chroma.{Chroma, IsLawful}
use llmops_rag_api.Persistence.{Gcs, Tar}
use llmops_rag_api.Rounding.{Rounding}
use llmops_rag_api.Tracking.SpendGuard.{Readings, record_cost}
use llmops_rag_api.Rag.Chunking.{Chunk}
use llmops_rag_api.Tracking.Cost.{estimate_cost_usd}
use llmops_rag_api.Rag.Chunking.Ids.{DistinctIds}
use llmops_rag_api.Rag.VectorStore.Holds.{Holds, Keeps}
use llmops_rag_api.Rag.VectorStore.{add, value_error, store_error}

module _ (G : Gcs) (C : Chroma) (K : IsLawful C) (T : Tar C.Dir) (enabled : Bool)
    (workspace : List Text) (P : Provider) (settings : Settings) (rounding : Rounding)
    (others : ℕ → G.Bucket → G.Bucket) where
  abbrev Run : Type 0
  Run = IngestEnd × State C.Dir G.Bucket × List Call

  -- A run that the provider or the store ended, after one call of the provider.
  abbrev pub Raised : List Chunk → State C.Dir G.Bucket → Run → Type 0
  Raised [] s run = ⊥
  Raised (c ∷ cs) s run =
      let texts = map (λ (x : Chunk). x.text) (c ∷ cs) in
      ((P.embed texts ≡ none) × (run ≡ (provider_failed, s, embedded texts ∷ [])))
      ⊎ ((e : EmbeddingResult) × (P.embed texts ≡ some e)
          × (((add C s.instance_state.dir (c ∷ cs) e.vectors ≡ value_error)
                × (run ≡ (store_mismatched, s, embedded texts ∷ [])))
              ⊎ ((add C s.instance_state.dir (c ∷ cs) e.vectors ≡ store_error)
                  × (run ≡ (store_failed, s, embedded texts ∷ [])))))

  -- The tokens are those that the provider charged for the one call, and none for no chunk.
  abbrev pub Embedded : List Chunk → IngestResult → List Call → Type 0
  Embedded [] outcome calls = (outcome.embedding_tokens ≡ 0) × (calls ≡ [])
  Embedded (c ∷ cs) outcome calls =
      let texts = map (λ (x : Chunk). x.text) (c ∷ cs) in
      (e : EmbeddingResult) × (P.embed texts ≡ some e)
      × (outcome.embedding_tokens ≡ e.tokens)
      × (calls ≡ embedded texts ∷ [])

  -- A run that stored its chunks, and what it recorded.
  abbrev pub Stored : Readings → List Text → List Chunk → State C.Dir G.Bucket → Run → Type 0
  Stored recording ids chunks s (end, s', calls) =
      (outcome : IngestResult) × ((end ≡ ingested outcome) ⊎ (end ≡ merge_failed))
      × Embedded chunks outcome calls
      × (outcome.chunk_count ≡ length chunks)
      × (outcome.document_ids ≡ ids)
      × (outcome.cost_usd ≡ estimate_cost_usd settings.embedding_model outcome.embedding_tokens 0)
      × (s'.guard ≡ record_cost recording (pos outcome.cost_usd) s.guard)
      × (DistinctIds chunks
          → Holds C s'.instance_state.dir chunks
            × Keeps C s.instance_state.dir s'.instance_state.dir)
