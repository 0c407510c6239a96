-- ===== src/Tests/Evaluation.antt =====
-- Runs of src/app/evaluation.
use llmops_rag_api.Prelude.{
  ℕ, List, none, [], pos, ◌≡◌, refl, ◌≢◌, ◌↔◌, Bool, true, false, ◌&&◌, some, ◌∷◌, arith, leb, In,
}
use llmops_rag_api.Evaluation.Dataset.{GoldenCase, RawCase, load_cases, is_refusal_case}
use llmops_rag_api.Evaluation.Metrics.{
  CaseScore, score_case, summarise, failures, judge, doc_ids, any_keyword, matches_expected_doc,
  cites,
}
use llmops_rag_api.Evaluation.Scoring.{score_case-correct, accuracy-failures}
use llmops_rag_api.Evaluation.Loading.{load_cases-IsSound, IsSound}
use llmops_rag_api.Rag.Pipeline.Query.{QueryResult}
use llmops_rag_api.Rag.VectorStore.{RetrievedChunk}
use llmops_rag_api.Text.{codes, Text, text_eq, contains, strip, is_space, decimal}
use llmops_rag_api.Rounding.{rounding_half_up}

abbrev cloud_case : GoldenCase
cloud_case = record {
  id = codes "c1";
  question = codes "does it scale?";
  expected_doc = some (codes "cloud-run");
  expected_keywords = codes "scales" ∷ [];
  must_be_grounded = true;
  notes = [];
}

abbrev source : Text → RetrievedChunk
source id = record { chunk_id = id; doc_id = id; text = id; similarity = pos 9_000; metadata = [] }

abbrev result_from : Text → QueryResult
result_from doc = record {
  answer = codes "It scales [1].";
  sources = source doc ∷ [];
  model = codes "gpt-4o-mini";
  prompt_tokens = 10;
  completion_tokens = 5;
  embedding_tokens = 3;
  cost_usd = 456;
  cost_inr = 0;
  refused = false;
}

abbrev is_digit : ℕ → Bool
is_digit c = leb b'0' c && leb c b'9'

abbrev scored : Text → CaseScore
scored doc = score_case (λ t. t) is_digit cloud_case (result_from doc) 120

-- A neighbour whose id only begins alike is not the expected document.
near_miss :
    ((scored (codes "cloud-run")).correct ≡ true)
    × ((scored (codes "cloud-run-scaling")).correct ≡ false)
unfolding score_case judge doc_ids any_keyword matches_expected_doc text_eq contains strip is_space
near_miss = (refl, refl)

cited : (scored (codes "cloud-run")).cites_sources ≡ true
unfolding score_case cites contains strip is_space
cited = refl

score_case-correct_example :
    (((scored (codes "cloud-run")).correct ≡ true)
      ↔ ((scored (codes "cloud-run")).failure_reason ≡ none))
    × (is_refusal_case cloud_case ≡ true
        → (scored (codes "cloud-run")).correct ≡ (scored (codes "cloud-run")).refused)
    × (is_refusal_case cloud_case ≡ false
        → (scored (codes "cloud-run")).correct ≡ true
        → ((id : Text) × (some (codes "cloud-run") ≡ some id)
            × ((c : RetrievedChunk) × In c (source (codes "cloud-run") ∷ []) × (c.doc_id ≡ id)))
          × ((scored (codes "cloud-run")).refused ≡ false))
score_case-correct_example =
    score_case-correct (λ t. t) is_digit cloud_case (result_from (codes "cloud-run")) 120

abbrev both_scores : List CaseScore
both_scores = scored (codes "cloud-run") ∷ scored (codes "cloud-run-scaling") ∷ []

accuracy-failures_example :
    ((summarise rounding_half_up (cloud_case ∷ []) both_scores).accuracy ≡ 10_000)
    ↔ (failures (summarise rounding_half_up (cloud_case ∷ []) both_scores) ≡ [])
accuracy-failures_example =
    accuracy-failures rounding_half_up (cloud_case ∷ []) both_scores (omega arith)

half_right : (summarise rounding_half_up (cloud_case ∷ []) both_scores).accuracy ≡ 5_000
unfolding summarise score_case text_eq contains strip is_space
half_right = refl

abbrev raw : RawCase
raw = record {
  raw_id = none;
  raw_question = codes " why? ";
  raw_expected_doc = none;
  raw_expected_keywords = [];
  raw_must_be_grounded = false;
  raw_notes = [];
}

abbrev file : List Text
file = codes "# cases" ∷ [] ∷ codes "{}" ∷ codes "{}" ∷ []

abbrev read_case_at : Text → GoldenCase
read_case_at id = record {
  id = id;
  question = codes "why?";
  expected_doc = none;
  expected_keywords = [];
  must_be_grounded = false;
  notes = [];
}

abbrev read_cases : List GoldenCase
read_cases = read_case_at (codes "case-3") ∷ read_case_at (codes "case-4") ∷ []

load_cases-IsSound_example : IsSound [] read_cases × (read_cases ≢ [])
unfolding load_cases strip is_space text_eq decimal
load_cases-IsSound_example = load_cases-IsSound (λ line. some raw) file read_cases refl
