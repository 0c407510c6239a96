-- ===== src/Http/Outcome.antt =====
-- What `/query` of src/app/main.py answers, and what it costs, for every request.
use llmops_rag_api.Prelude.{
  ◌≡◌, ◌⊎◌, true, false, Bool, Option, none, some, List, [], pos, length, ◌≤◌, ℕ,
}
use llmops_rag_api.Http.{Text, Rounding, decimal}
use llmops_rag_api.Http.Errors.{
  an_openai_error, a_value_error, another_error, ErrorAnswer, plain, Answer, refused_with, success,
  Failure,
}
use llmops_rag_api.Http.Endpoints.{QueryRequest, QueryResponse}
use llmops_rag_api.Rag.Chroma.{Chroma, IsLawful}
use llmops_rag_api.Rag.Pipeline.{Provider, Settings, Call, or_number}
use llmops_rag_api.Tracking.SpendGuard.{Readings, SpendGuard, BudgetExceeded, record_cost}

-- The request does not reach the pipeline, for the first of the reasons that applies.
abbrev TurnedAway : Bool → Bool → Bool → ErrorAnswer → Type 0
TurnedAway authorised initialised valid a =
    ((authorised ≡ false) × (a ≡ plain 401))
    ⊎ (((authorised ≡ true) × (initialised ≡ false) × (a ≡ plain 503))
        ⊎ ((authorised ≡ true) × (initialised ≡ true) × (valid ≡ false) × (a ≡ plain 422)))

-- The status for a failure of the provider or of the store.
abbrev pub status_of : Failure → ℕ
status_of an_openai_error = 502
status_of a_value_error = 400
status_of another_error = 500

module _ (C : Chroma) (K : IsLawful C) (P : Provider) (settings : Settings) (rounding : Rounding)
    (provider_error chroma_error : Failure) (app_api_key : Text) (initialised : Bool) where
  -- The answer of the pipeline to a request that the guard does not refuse; `g` is the guard after the check.
  abbrev pub Served :
      QueryRequest → Readings → SpendGuard → Answer QueryResponse × SpendGuard × List Call → Type 0
  Served q recording g (answer, g', calls) =
      (((answer ≡ refused_with (plain (status_of provider_error)))
          ⊎ (answer ≡ refused_with (plain (status_of chroma_error))))
        × (g' ≡ g))
      ⊎ ((r : QueryResponse) × (answer ≡ success 200 r)
          × (g' ≡ record_cost recording (pos r.estimated_cost_usd) g)
          × (length r.sources ≤ or_number q.top_k settings.top_k)
          × (r.sources ≡ [] → r.refused ≡ true))

  -- A request that is admitted.
  abbrev pub Admitted :
      QueryRequest
      → Readings
      → Option BudgetExceeded
      → SpendGuard
      → Answer QueryResponse × SpendGuard × List Call
      → Type 0
  Admitted q recording refusal g1 run =
      ((e : BudgetExceeded) × (refusal ≡ some e)
        × (run ≡ (
          refused_with (record {
            status = 429;
            retry_after = some (decimal e.resets_in_seconds);
            exhausted = some e;
          }),
          g1,
          [],
        )))
      ⊎ ((refusal ≡ none) × Served q recording g1 run)
