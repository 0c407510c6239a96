-- ===== src/Http/Errors.antt =====
-- What the application of src/app/main.py answers where a request fails: the exception handlers, and the
-- guards of an endpoint, `get_pipeline` of src/app/dependencies.py among them. Of the body of an
-- answer the numbers are kept, not the texts.
use llmops_rag_api.Prelude.{ℕ, Bool, not, Option, none, some, if◌then◌else◌}
use llmops_rag_api.Text.{Text, decimal}
use llmops_rag_api.Tracking.SpendGuard.{BudgetExceeded}
use llmops_rag_api.Http.{require_api_key}

-- An exception that leaves an endpoint; `invalid_request` is FastAPI's, for a body that does not fit its schema.
pub data Raised : Type 0 where
  http_exception : ℕ → Raised
  invalid_request value_error openai_error other_error : Raised
  budget_exceeded : BudgetExceeded → Raised

pub record ErrorAnswer : Type 0 where
  pub status : ℕ
  pub retry_after : Option Text
  pub exhausted : Option BudgetExceeded

pub data Answer (A : Type 0) : Type 0 where
  refused_with : ErrorAnswer → Answer A
  success : ℕ → A → Answer A

abbrev pub plain : ℕ → ErrorAnswer
plain n = record { status = n; retry_after = none; exhausted = none }

unfoldable pub budget_exceeded_handler : BudgetExceeded → ErrorAnswer
budget_exceeded_handler e = record {
  status = 429;
  retry_after = some (decimal e.resets_in_seconds);
  exhausted = some e;
}

abbrev pub openai_error_handler : ErrorAnswer
openai_error_handler = plain 502

abbrev pub value_error_handler : ErrorAnswer
value_error_handler = plain 400

-- What an exception of the provider's client or of Chroma is to the handlers.
pub data Failure : Type 0 where
  an_openai_error a_value_error another_error : Failure

abbrev pub raised_by : Failure → Raised
raised_by an_openai_error = openai_error
raised_by a_value_error = value_error
raised_by another_error = other_error

-- Which handler answers; an exception without one is the server's own 500.
unfoldable pub handle : Raised → ErrorAnswer
unfolding budget_exceeded_handler
handle (http_exception n) = plain n
handle invalid_request = plain 422
handle value_error = value_error_handler
handle openai_error = openai_error_handler
handle other_error = plain 500
handle (budget_exceeded e) = budget_exceeded_handler e

-- `get_pipeline`: `initialised` is whether the startup has built a pipeline.
abbrev pub get_pipeline : Bool → Option Raised
get_pipeline initialised = if initialised then none else some (http_exception 503)

-- The exception that keeps a request from its endpoint: the dependencies come before the body.
unfoldable pub admission : Text → Bool → Option Text → Bool → Option Raised
admission app_api_key initialised x_api_key valid =
    if not (require_api_key app_api_key x_api_key)
    then some (http_exception 401)
    else elim (get_pipeline initialised) [
      | some e ↦ some e
      | none ↦ if valid then none else some invalid_request
    ]
