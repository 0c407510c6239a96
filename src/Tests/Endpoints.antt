-- ===== src/Tests/Endpoints.antt =====
-- Runs of the endpoints of src/app/main.py.
use llmops_rag_api.Rag.Pipeline.{Call}
use llmops_rag_api.Prelude.{◌≡◌, refl, some, true, [], Option, List}
use llmops_rag_api.Http.Errors.{
  Answer, admission, handle, plain, refused_with, an_openai_error, another_error,
}
use llmops_rag_api.Http.Endpoints.{QueryRequest, QueryResponse, query_endpoint}
use llmops_rag_api.Tests.Pipeline.{provider, settings, prompts, guard}
use llmops_rag_api.Tests.Storage.{fixed}
use llmops_rag_api.Text.{codes, text_eq}
use llmops_rag_api.Tracking.SpendGuard.{SpendGuard, BudgetExceeded, check}
use llmops_rag_api.Http.{require_api_key}
use llmops_rag_api.Rounding.{rounding_half_up}
use llmops_rag_api.Tracking.SpendGuard.Service.{at_once}

abbrev asked : QueryRequest
asked = record { question = codes "where?"; top_k = some 3 }

-- With the right key of a service that has one.
abbrev query_run : Answer QueryResponse × SpendGuard × List Call
query_run =
    query_endpoint fixed provider settings rounding_half_up an_openai_error another_error
      (codes "secret") true (λ t. t) prompts (at_once 5) (at_once 9) (some (codes "secret")) asked
      tt guard

abbrev checked : Option BudgetExceeded × SpendGuard
checked = check rounding_half_up (at_once 5) guard

wrong_key :
    query_endpoint fixed provider settings rounding_half_up an_openai_error another_error
      (codes "secret")
      true
      (λ t. t)
      prompts
      (at_once 5)
      (at_once 9)
      (some (codes "guess"))
      asked
      tt
      guard
    ≡ (refused_with (plain 401), guard, [])
unfolding query_endpoint admission handle text_eq require_api_key
wrong_key = refl
