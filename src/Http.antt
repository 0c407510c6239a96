-- ===== src/Http.antt =====
-- Who a request counts for, and which requests are let through: `_client_key` and
-- `rate_limit_middleware` of src/app/main.py, and `require_api_key` of src/app/dependencies.py. The
-- digest of SHA-256 in hexadecimal is a parameter, and so is what the rest of the application does.
pub mod Throttle
pub mod Upload
pub mod Errors
pub mod Endpoints
pub mod Outcome
use llmops_rag_api.Prelude.{
  ◌++◌, Option, ◌∷◌, [], Bool, ℕ, true, false, ◌&&◌, ◌||◌, none, some, ◌==◌, if◌then◌else◌, take,
}
use llmops_rag_api.Text.{Text, strip, starts_with, codes, is_empty, text_eq, decimal}
use llmops_rag_api.RateLimit.{RateLimiter, allow, enabled}
use llmops_rag_api.RateLimit.RetryAfter.{retry_after_header}
use llmops_rag_api.Rounding.{Rounding}

pub record Request : Type 0 where
  pub path : Text
  pub api_key : Option Text
  pub forwarded_for : Option Text
  pub host : Option Text

-- `s.split(",")[0]`
abbrev pub before_comma : Text → Text
before_comma [] = []
before_comma (c ∷ s) = let rest = before_comma s in if c == b',' then [] else c ∷ rest

abbrev pub or_text : Text → Text → Text
or_text [] d = d
or_text (c ∷ s) d = c ∷ s

abbrev pub given : Option Text → Text → Text
given none d = d
given (some t) d = t

unfoldable pub client_key : (Text → Text) → Request → Text
client_key sha256 q = elim (is_empty (given q.api_key [])) [
  | false ↦ codes "key:" ++ take 16 (sha256 (given q.api_key []))
  | true ↦
      codes "ip:"
      ++ or_text (strip (before_comma (given q.forwarded_for []))) (given q.host (codes "unknown"))
]

-- `path.startswith(METERED_PATHS)`
unfoldable pub is_metered : Text → Bool
is_metered path = starts_with path (codes "/ingest") || starts_with path (codes "/query")

-- The 429 with its header and its body, or what the rest of the application answers.
pub data Response (A : Type 0) : Type 0 where
  too_many : Text → ℕ → Response A
  passed : A → Response A

unfoldable pub rate_limit_middleware :
    {A : Type 0}
    → Rounding
    → (Text → Text)
    → (Request → A)
    → Request
    → ℕ
    → RateLimiter
    → Response A × RateLimiter
unfolding is_metered client_key
rate_limit_middleware rounding sha256 call_next q now l =
    if enabled l && is_metered q.path
    then (let ((allowed, retry_after), l') = allow rounding (client_key sha256 q) now l in
        if allowed
        then (passed (call_next q), l')
        else (too_many (decimal (retry_after_header retry_after)) retry_after, l'))
    else (passed (call_next q), l)

-- `true` where the request is let through, `false` for the 401. An empty `app_api_key` switches the
-- test off.
unfoldable pub require_api_key : Text → Option Text → Bool
require_api_key [] x_api_key = true
require_api_key (c ∷ s) none = false
require_api_key (c ∷ s) (some key) = text_eq key (c ∷ s)
