-- ===== src/Tests/Http.antt =====
-- Requests to the middleware of src/app/main.py.
use llmops_rag_api.Prelude.{
  none, ℕ, pos, ◌≡◌, refl, false, some, [], ◌∷◌, List, ◌≢◌, ◌≤◌, ap, Option, arith, length,
}
use llmops_rag_api.Http.{Request, too_many, passed, client_key, rate_limit_middleware}
use llmops_rag_api.Http.Upload.{check_file, check_file-prepare, rejected}
use llmops_rag_api.Rag.Pipeline.{Settings}
use llmops_rag_api.Rag.Pipeline.Ingest.{Document, prepare}
use llmops_rag_api.Http.Throttle.{NewKeys-pass, serve}
use llmops_rag_api.RateLimit.{spend_token, refill, retry_after, RateLimiter, allow, enabled}
use llmops_rag_api.Text.{codes, strip, text_eq, is_space, decimal, starts_with, Text}
use llmops_rag_api.Rounding.{rounding_half_up}
use llmops_rag_api.RateLimit.RetryAfter.{retry_after_header}
use llmops_rag_api.Dict.{lookup}

abbrev by_key : Request
by_key = record {
  path = codes "/query";
  api_key = some (codes "k2");
  forwarded_for = some (codes "10.0.0.1, 10.0.0.2");
  host = none;
}

abbrev by_address : Request
by_address = record by_key { api_key = none }

first_hop : client_key (λ t. t) by_address ≡ codes "ip:10.0.0.1"
unfolding client_key strip is_space
first_hop = refl

-- One request a minute; the key "k1" has no token left.
abbrev limiter : RateLimiter
limiter = record {
  rate = 1;
  max_keys = 10;
  buckets = (codes "key:k1", record { tokens = pos 0; updated = 0 }) ∷ [];
}

abbrev answer : Request → ℕ
answer q = 200

abbrev spent_key : Request
spent_key = record by_key { api_key = some (codes "k1") }

abbrev spent_ingest : Request
spent_ingest = record spent_key { path = codes "/ingest/file" }

throttled :
    (rate_limit_middleware rounding_half_up (λ t. t) answer spent_key 0 limiter).0
    ≡ too_many (codes "61") 6_000
unfolding rate_limit_middleware client_key enabled starts_with allow lookup text_eq spend_token
    refill decimal retry_after retry_after_header
throttled = refl

abbrev two_keys : List (Request × ℕ)
two_keys = (by_key, 0) ∷ (by_address, 0) ∷ []

first_code : Text → ℕ
first_code [] = 0
first_code (c ∷ cs) = c

NewKeys-pass_example :
    serve rounding_half_up (λ t. t) answer two_keys limiter ≡ passed 200 ∷ passed 200 ∷ []
unfolding client_key text_eq lookup strip is_space first_code
NewKeys-pass_example =
    NewKeys-pass rounding_half_up (λ t. t) answer two_keys limiter
      (refl, ((λ e. omega (arith, ap first_code e)), tt), (refl, tt, tt))

-- Every byte as one character.
abbrev decode_bytes : List ℕ → Option Text
decode_bytes raw = some raw

decode_bytes-shorter : (raw : List ℕ) (t : Text) → decode_bytes raw ≡ some t → length t ≤ length raw
decode_bytes-shorter raw t e = let same : raw ≡ t = cc e in omega (arith, ap length same)

abbrev upload_settings : Settings
upload_settings = record {
  chat_model = [];
  embedding_model = [];
  top_k = 4;
  min_similarity = 0;
  min_similarity_ratio = 0;
  inr_rate = 8_800;
  chunk_size = 80;
  chunk_overlap = 8;
  max_ingest_chars = 20;
  snapshot_on_ingest = false;
}

abbrev notes : Document
notes = record {
  text = codes "some notes";
  doc_id = none;
  metadata = (codes "source", codes "n.md") ∷ [];
}

too_long :
    check_file
      (λ t. t)
      decode_bytes
      upload_settings
      (some (codes "n.md"))
      (codes "twenty-one characters")
    ≡ rejected 413
unfolding check_file text_eq
too_long = refl

check_file-prepare_example : prepare (λ t. t) upload_settings (notes ∷ []) ≢ none
unfolding check_file text_eq strip is_space
check_file-prepare_example =
    check_file-prepare (λ t. t) decode_bytes decode_bytes-shorter (λ t. t) upload_settings
      (some (codes "n.md")) (codes "some notes") notes (omega arith) refl
