-- ===== src/Tests/Sweep.antt =====
-- Runs of src/app/evaluation/sweep.py.
use llmops_rag_api.Evaluation.Metrics.{matches_expected_doc}
use llmops_rag_api.Evaluation.Dataset.{is_seen, GoldenCase}
use llmops_rag_api.Prelude.Ranked.{IsRanked}
use llmops_rag_api.Prelude.{
  ℕ, List, Option, none, some, [], ◌∷◌, ◌≡◌, refl, ◌⊎◌, ◌↔◌, map, All, In, pos, ltb, if◌then◌else◌,
  true, false,
}
use llmops_rag_api.Evaluation.Sweep.{
  SweepPoint, SweepPipeline, SweepResult, run_sweep, build_grid, evaluate_point, score_leb,
}
use llmops_rag_api.Evaluation.Sweep.Grid.{InGrid}
use llmops_rag_api.Evaluation.Sweep.Best.{IsEvaluated, run_sweep-IsRanked}
use llmops_rag_api.Rag.VectorStore.{RetrievedChunk}
use llmops_rag_api.Rounding.{rounding_half_up}
use llmops_rag_api.Text.{Text, codes, text_eq, contains, starts_with}
use llmops_rag_api.Tracking.Cost.{estimate_cost_usd, price_for}

abbrev answerable_case : GoldenCase
answerable_case = record {
  id = codes "c1";
  question = codes "does it scale?";
  expected_doc = some (codes "run");
  expected_keywords = codes "scales" ∷ [];
  must_be_grounded = true;
  notes = [];
}

abbrev outside_case : GoldenCase
outside_case = record answerable_case { id = codes "c2"; must_be_grounded = false }

abbrev chunk_with : Text → RetrievedChunk
chunk_with text = record {
  chunk_id = text;
  doc_id = codes "run";
  text = text;
  similarity = pos 9_000;
  metadata = [];
}

-- Smaller chunks keep the passage that answers.
abbrev pipeline_for : SweepPoint → SweepPipeline
pipeline_for p = record {
  corpus = some (20, 900);
  retrieve = λ question k. some (record {
    found =
        if ltb p.chunk_size 500
        then chunk_with (codes "it scales") ∷ []
        else chunk_with (codes "it") ∷ [];
    tokens = 4;
    elapsed = 30;
  });
}

abbrev swept : Option (List SweepResult)
swept =
    run_sweep (λ t. t) rounding_half_up (codes "text-embedding-3-small") pipeline_for
      (answerable_case ∷ outside_case ∷ [])
      (build_grid (800 ∷ 400 ∷ []) (100 ∷ 400 ∷ []) (4 ∷ []) (0 ∷ []))

abbrev sizes_of : Option (List SweepResult) → List (ℕ × ℕ)
sizes_of none = []
sizes_of (some rs) = map (λ (r : SweepResult). (r.point.chunk_size, r.answerable_rate)) rs

-- The overlap of 400 is left out for the size of 400, which is the best.
swept_sizes : sizes_of swept ≡ (400, 10_000) ∷ (800, 0) ∷ (800, 0) ∷ []
unfolding run_sweep build_grid text_eq contains estimate_cost_usd price_for starts_with
    matches_expected_doc is_seen
swept_sizes = refl

run_sweep-IsRanked_example :
    ((p : SweepPoint) × InGrid (800 ∷ 400 ∷ []) (100 ∷ 400 ∷ []) (4 ∷ []) (0 ∷ []) p
      × (evaluate_point
            (λ t. t)
            rounding_half_up
            (codes "text-embedding-3-small")
            pipeline_for
            (answerable_case ∷ outside_case ∷ [])
            p
          ≡ none)
      × (swept ≡ none))
    ⊎ ((rs : List SweepResult) × (swept ≡ some rs)
        × ((p : SweepPoint)
            → In p (map (λ (r : SweepResult). r.point) rs)
              ↔ InGrid (800 ∷ 400 ∷ []) (100 ∷ 400 ∷ []) (4 ∷ []) (0 ∷ []) p)
        × All
            (IsEvaluated
              (λ t. t)
              rounding_half_up
              (codes "text-embedding-3-small")
              pipeline_for
              (answerable_case ∷ outside_case ∷ []))
            rs
        × IsRanked score_leb rs)
run_sweep-IsRanked_example =
    run_sweep-IsRanked (λ t. t) rounding_half_up (codes "text-embedding-3-small") pipeline_for
      (answerable_case ∷ outside_case ∷ []) (800 ∷ 400 ∷ []) (100 ∷ 400 ∷ []) (4 ∷ []) (0 ∷ [])
