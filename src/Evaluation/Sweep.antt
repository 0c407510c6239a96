-- ===== src/Evaluation/Sweep.antt =====
-- src/app/evaluation/sweep.py: the grid, the evaluation of a point, and the sweep. A rate is in units of 1e-4, a
-- mean in units of 1e-2, a similarity in units of 1e-8. The pipeline that is built for a point is a parameter:
-- `corpus` is what the ingest of the corpus reports, `retrieve` gives the hits, the tokens and the duration, and
-- none stands for an exception. `str.lower` is a parameter. The table of results and the tracker are left out.

pub mod Grid
pub mod Best
use llmops_rag_api.Prelude.{
  ℕ, ◌+◌, ◌*◌, Bool, not, ◌&&◌, ◌||◌, ◌==◌, Option, none, some, List, [], ◌∷◌, ◌++◌, if◌then◌else◌,
  ltb, leb, length, map, keep,
}
use llmops_rag_api.Prelude.Newest.{concat}
use llmops_rag_api.Prelude.Ranked.{sort_ranked}
use llmops_rag_api.Text.{Text}
use llmops_rag_api.Rounding.{Rounding}
use llmops_rag_api.Evaluation.Dataset.{GoldenCase, is_refusal_case, is_seen}
use llmops_rag_api.Evaluation.Metrics.{
  retrieval_hit_of, any_keyword, rate, total_of, keyword_hit_of,
}
use llmops_rag_api.Rag.VectorStore.{RetrievedChunk}
use llmops_rag_api.Tracking.Cost.{estimate_cost_usd}

pub record SweepPoint : Type 0 where
  pub chunk_size : ℕ
  pub chunk_overlap : ℕ
  pub top_k : ℕ
  pub min_similarity : ℕ

-- Why a case failed: the ids of the documents found instead, or no passage that supports the answer.
pub data SweepFailure : Type 0 where
  missed : Text → Option Text → List Text → SweepFailure
  unsupported : Text → SweepFailure

pub record SweepResult : Type 0 where
  pub point : SweepPoint
  pub chunks : ℕ
  pub retrieval_hit_rate : ℕ
  pub empty_on_out_of_corpus : ℕ
  pub answerable_rate : ℕ
  pub mean_retrieval_ms : ℕ
  pub mean_chunks_returned : ℕ
  pub embedding_tokens : ℕ
  pub embedding_cost_usd : ℕ
  pub failures : List SweepFailure

-- `r.score <= s.score`, where fewer chunks are the higher score.
unfoldable pub score_leb : SweepResult → SweepResult → Bool
score_leb r s =
    ltb r.answerable_rate s.answerable_rate
    || (r.answerable_rate == s.answerable_rate
        && (ltb r.retrieval_hit_rate s.retrieval_hit_rate
            || (r.retrieval_hit_rate == s.retrieval_hit_rate
                && (ltb r.empty_on_out_of_corpus s.empty_on_out_of_corpus
                    || (r.empty_on_out_of_corpus == s.empty_on_out_of_corpus
                        && leb s.mean_chunks_returned r.mean_chunks_returned)))))

abbrev pub put_point : ℕ → ℕ → ℕ → ℕ → List SweepPoint → List SweepPoint
put_point size overlap k floor rest =
    if leb size overlap
    then rest
    else record { chunk_size = size; chunk_overlap = overlap; top_k = k; min_similarity = floor }
      ∷ rest

-- The loops over the floors, the depths, the overlaps and the sizes, the innermost first.
unfoldable pub floor_points : ℕ → ℕ → ℕ → List ℕ → List SweepPoint
floor_points size overlap k [] = []
floor_points size overlap k (f ∷ floors) =
    let rest = floor_points size overlap k floors in put_point size overlap k f rest

unfoldable pub build_grid : List ℕ → List ℕ → List ℕ → List ℕ → List SweepPoint
unfolding concat floor_points
build_grid sizes overlaps ks floors = concat (
    map
      (λ size.
        concat
          (map (λ overlap. concat (map (λ k. floor_points size overlap k floors) ks)) overlaps))
      sizes)

pub record Hits : Type 0 where
  pub found : List RetrievedChunk
  pub tokens : ℕ
  pub elapsed : ℕ

pub record SweepPipeline : Type 0 where
  pub corpus : Option (ℕ × ℕ)
  pub retrieve : Text → ℕ → Option Hits

-- The counters of the loops.
pub record Tally : Type 0 where
  pub hits : ℕ
  pub answerable : ℕ
  pub rejected : ℕ
  pub failed : List SweepFailure
  pub returned : List ℕ
  pub latencies : List ℕ
  pub question_tokens : ℕ

abbrev pub no_tally : Tally
no_tally = record {
  hits = 0;
  answerable = 0;
  rejected = 0;
  failed = [];
  returned = [];
  latencies = [];
  question_tokens = 0;
}

-- `list(dict.fromkeys(c.doc_id for c in found))`, with the ids seen so far.
unfoldable pub keys_from : List Text → List RetrievedChunk → List Text
keys_from seen [] = seen
keys_from seen (c ∷ cs) =
    keys_from (if is_seen c.doc_id seen then seen else seen ++ (c.doc_id ∷ [])) cs

-- `" ".join(c.text for c in found)`
unfoldable pub joined_texts : List RetrievedChunk → Text
joined_texts [] = []
joined_texts (c ∷ []) = c.text
joined_texts (c ∷ d ∷ cs) = let rest = joined_texts (d ∷ cs) in c.text ++ (b' ' ∷ rest)

module _ (lower : Text → Text) where
  -- The body of the loop over the cases that are to be answered.
  unfoldable pub tally_grounded : GoldenCase → Hits → Tally → Tally
  unfolding keys_from joined_texts any_keyword
  tally_grounded case_ h t =
      let docs = keys_from [] h.found in
      let hit = retrieval_hit_of case_.expected_doc docs in
      let supported = keyword_hit_of lower case_.expected_keywords (lower (joined_texts h.found)) in
      record {
        hits = if hit then t.hits + 1 else t.hits;
        answerable = if supported then t.answerable + 1 else t.answerable;
        rejected = t.rejected;
        failed =
            t.failed
            ++ ((if hit then [] else missed case_.id case_.expected_doc docs ∷ [])
                ++ (if supported then [] else unsupported case_.id ∷ []));
        returned = t.returned ++ (length h.found ∷ []);
        latencies = t.latencies ++ (h.elapsed ∷ []);
        question_tokens = t.question_tokens + h.tokens;
      }

-- The body of the loop over the others.
unfoldable pub tally_refusal : Hits → Tally → Tally
tally_refusal h t = record t {
  rejected = if length h.found == 0 then t.rejected + 1 else t.rejected;
  latencies = t.latencies ++ (h.elapsed ∷ []);
  question_tokens = t.question_tokens + h.tokens;
}

module _ (lower : Text → Text) (rounding : Rounding) (embedding_model : Text) where
  -- A loop over cases; an exception of the pipeline ends it.
  unfoldable pub tally_cases :
      SweepPipeline
      → ℕ
      → (GoldenCase → Hits → Tally → Tally)
      → List GoldenCase
      → Tally
      → Option Tally
  tally_cases p k step [] t = some t
  tally_cases p k step (c ∷ cs) t = elim (p.retrieve c.question k) [
    | none ↦ none
    | some h ↦ tally_cases p k step cs (step c h t)
  ]

  abbrev pub mean_of : List ℕ → ℕ → ℕ
  mean_of xs unit =
      if length xs == 0 then 0 else rounding.round_ratio (unit * total_of xs) (length xs)

  unfoldable pub sweep_result : SweepPoint → ℕ → ℕ → ℕ → ℕ → Tally → SweepResult
  unfolding rate
  sweep_result point chunks tokens grounded refusals t =
      let total_tokens = t.question_tokens + tokens in
      record {
        point = point;
        chunks = chunks;
        retrieval_hit_rate = rate rounding t.hits grounded;
        empty_on_out_of_corpus = rate rounding t.rejected refusals;
        answerable_rate = rate rounding t.answerable grounded;
        mean_retrieval_ms = mean_of t.latencies 1;
        mean_chunks_returned = mean_of t.returned 100;
        embedding_tokens = total_tokens;
        embedding_cost_usd = estimate_cost_usd embedding_model total_tokens 0;
        failures = t.failed;
      }

  unfoldable pub evaluate_point :
      (SweepPoint → SweepPipeline) → List GoldenCase → SweepPoint → Option SweepResult
  unfolding tally_cases tally_grounded tally_refusal sweep_result is_refusal_case
  evaluate_point build_pipeline_for cases point =
      let p = build_pipeline_for point in
      let grounded = keep (λ (c : GoldenCase). not (is_refusal_case c)) cases in
      let refusals = keep is_refusal_case cases in
      elim p.corpus [
        | none ↦ none
        | some (chunks, tokens) ↦
            elim (tally_cases p point.top_k (tally_grounded lower) grounded no_tally) [
              | none ↦ none
              | some t ↦ elim (tally_cases p point.top_k (λ c. tally_refusal) refusals t) [
                | none ↦ none
                | some t' ↦
                    some (sweep_result point chunks tokens (length grounded) (length refusals) t')
              ]
            ]
      ]

  abbrev pub put_result : Option SweepResult → Option (List SweepResult) → Option (List SweepResult)
  put_result none rest = none
  put_result (some r) none = none
  put_result (some r) (some rs) = some (r ∷ rs)

  -- The results in the order of the grid.
  unfoldable pub evaluate_all :
      (SweepPoint → SweepPipeline) → List GoldenCase → List SweepPoint → Option (List SweepResult)
  unfolding evaluate_point
  evaluate_all build_pipeline_for cases [] = some []
  evaluate_all build_pipeline_for cases (point ∷ grid) =
      let rest = evaluate_all build_pipeline_for cases grid in
      put_result (evaluate_point build_pipeline_for cases point) rest

  unfoldable pub run_sweep :
      (SweepPoint → SweepPipeline) → List GoldenCase → List SweepPoint → Option (List SweepResult)
  unfolding evaluate_all score_leb sort_ranked
  run_sweep build_pipeline_for cases grid = elim (evaluate_all build_pipeline_for cases grid) [
    | none ↦ none
    | some rs ↦ some (sort_ranked score_leb rs)
  ]
