-- ===== src/Tests/Runner.antt =====
-- Runs of src/app/evaluation/runner.py.
use llmops_rag_api.Prelude.{
  ℕ, ◌+◌, ◌≤◌, ◌≡◌, refl, ◌↔◌, Option, none, some, List, [], ◌∷◌, In, zero, suc, length, false,
}
use llmops_rag_api.Evaluation.Dataset.{GoldenCase, is_seen, is_refusal_case}
use llmops_rag_api.Evaluation.Metrics.{EvalSummary, summarise, CaseScore, score_case}
use llmops_rag_api.Evaluation.Runner.{
  Breach, default_thresholds, run_evaluation, low_refusal_accuracy, check_thresholds,
}
use llmops_rag_api.Evaluation.Runner.Gate.{to_refuse, refused_of, run_evaluation-refusals}
use llmops_rag_api.Rag.Pipeline.Query.{QueryResult, refusal_marker}
use llmops_rag_api.Rounding.{rounding_half_up}
use llmops_rag_api.Text.{Text, codes, text_eq}

abbrev question : ℕ → GoldenCase
question n = record {
  id = codes "c";
  question = n ∷ [];
  expected_doc = none;
  expected_keywords = [];
  must_be_grounded = false;
  notes = [];
}

abbrev questions : ℕ → List GoldenCase
questions zero = []
questions (suc n) = question n ∷ questions n

abbrev answer_with : Text → QueryResult
answer_with text = record {
  answer = text;
  sources = [];
  model = codes "gpt-4o-mini";
  prompt_tokens = 0;
  completion_tokens = 0;
  embedding_tokens = 3;
  cost_usd = 0;
  cost_inr = 0;
  refused = false;
}

-- The first question is answered, all others are refused.
abbrev reply : Text → Option (QueryResult × ℕ)
reply (zero ∷ _) = some (answer_with (codes "eighty"), 900)
reply _ = some (answer_with refusal_marker, 900)

abbrev scored : GoldenCase → Option (QueryResult × ℕ) → List CaseScore → List CaseScore
scored c none rest = rest
scored c (some (result, latency)) rest = score_case (λ t. t) (λ d. false) c result latency ∷ rest

abbrev scores_of : List GoldenCase → List CaseScore
scores_of [] = []
scores_of (c ∷ cs) = scored c (reply c.question) (scores_of cs)

abbrev summary : EvalSummary
summary = summarise rounding_half_up (questions 67) (scores_of (questions 67))

abbrev breaches : List Breach
breaches = check_thresholds default_thresholds summary

run_67 :
    run_evaluation (λ t. t) (λ d. false) reply rounding_half_up default_thresholds (questions 67)
    ≡ some (summary, breaches)
unfolding run_evaluation
run_67 = refl

asked_67 : length (to_refuse (questions 67) summary.scores) ≡ 67
unfolding summarise is_seen text_eq score_case is_refusal_case
asked_67 = refl

run_evaluation-refusals_example :
    In low_refusal_accuracy breaches
    ↔ (refused_of (to_refuse (questions 67) summary.scores) + 2 ≤ 67)
run_evaluation-refusals_example =
    run_evaluation-refusals (λ t. t) (λ d. false) reply rounding_half_up (questions 67) summary
      breaches run_67 asked_67
