-- ===== src/Evaluation/Runner.antt =====
-- src/app/evaluation/runner.py: the thresholds, the corpus, the run over the golden set, and the reference that is written
-- from it. The pipeline is a parameter: `query` gives the result and its latency, or raises. The corpus is the list
-- of its files with stems and texts, in the order of their names. The report and the tracker are left out.
pub mod Gate
use llmops_rag_api.Prelude.{
  ℕ, Bool, not, Option, none, some, List, [], ◌∷◌, ◌++◌, if◌then◌else◌, ltb, keep,
}
use llmops_rag_api.Text.{Text, codes}
use llmops_rag_api.Rounding.{Rounding}
use llmops_rag_api.Evaluation.Dataset.{GoldenCase, is_refusal_case, is_seen}
use llmops_rag_api.Evaluation.Metrics.{CaseScore, EvalSummary, score_case, summarise, ids_of}
use llmops_rag_api.Monitoring.Drift.{Baseline, from_eval}
use llmops_rag_api.Rag.Pipeline.Query.{QueryResult}
use llmops_rag_api.Rag.Pipeline.Ingest.{Document}

-- In units of 1e-4.
pub record Thresholds : Type 0 where
  pub accuracy : ℕ
  pub retrieval_hit_rate : ℕ
  pub refusal_accuracy : ℕ
  pub citation_rate : ℕ

abbrev pub default_thresholds : Thresholds
default_thresholds = record {
  accuracy = 8_000;
  retrieval_hit_rate = 8_500;
  refusal_accuracy = 9_800;
  citation_rate = 0;
}

-- A breach names its rate.
pub data Breach : Type 0 where
  low_accuracy low_hit_rate low_refusal_accuracy low_citation_rate : Breach

abbrev pub breach_if : Bool → Breach → List Breach → List Breach
breach_if below b rest = if below then b ∷ rest else rest

unfoldable pub check_thresholds : Thresholds → EvalSummary → List Breach
check_thresholds t s = breach_if (ltb s.accuracy t.accuracy) low_accuracy (
    breach_if (ltb s.retrieval_hit_rate t.retrieval_hit_rate) low_hit_rate (
      breach_if (ltb s.refusal_accuracy t.refusal_accuracy) low_refusal_accuracy
        (breach_if (ltb s.citation_rate t.citation_rate) low_citation_rate [])))

-- A file of the corpus: its stem and its text.
unfoldable pub corpus_documents : List (Text × Text) → List Document
corpus_documents [] = []
corpus_documents ((stem, text) ∷ files) =
    let rest = corpus_documents files in
    record {
      text = text;
      doc_id = some stem;
      metadata = (codes "source", stem ++ codes ".md") ∷ [];
    }
    ∷ rest

-- The argument of `pipeline.ingest`; `none` is the `ValueError` of an empty corpus.
unfoldable pub ingest_corpus : List (Text × Text) → Option (List Document)
unfolding corpus_documents
ingest_corpus [] = none
ingest_corpus (f ∷ files) = some (corpus_documents (f ∷ files))

module _ (lower : Text → Text) (digit : ℕ → Bool) (query : Text → Option (QueryResult × ℕ)) where
  abbrev pub put_score : CaseScore → Option (List CaseScore) → Option (List CaseScore)
  put_score s none = none
  put_score s (some ss) = some (s ∷ ss)

  -- The loop over the cases.
  unfoldable pub score_all : List GoldenCase → Option (List CaseScore)
  unfolding score_case
  score_all [] = some []
  score_all (c ∷ cases) =
      let rest = score_all cases in
      elim (query c.question) [
        | none ↦ none
        | some (result, latency) ↦ put_score (score_case lower digit c result latency) rest
      ]

  unfoldable pub run_evaluation :
      Rounding → Thresholds → List GoldenCase → Option (EvalSummary × List Breach)
  unfolding score_all summarise check_thresholds
  run_evaluation rounding thresholds cases = elim (score_all cases) [
    | none ↦ none
    | some scores ↦
        let summary = summarise rounding cases scores in
        some (summary, check_thresholds thresholds summary)
  ]

-- The reference of the answerable cases; `none` is the `ValueError` where there is none.
unfoldable pub write_baseline : List GoldenCase → EvalSummary → Text → Option Baseline
unfolding is_refusal_case is_seen from_eval
write_baseline cases summary version =
    let grounded = ids_of (keep (λ (c : GoldenCase). not (is_refusal_case c)) cases) in
    from_eval (keep (λ (s : CaseScore). is_seen s.case_id grounded) summary.scores) version
