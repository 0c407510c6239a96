-- ===== src/Evaluation/Metrics.antt =====
-- src/app/evaluation/metrics.py. A rate is counted in units of 1e-4, a latency in units of 1e-2 ms
-- and a cost in units of 1e-8 USD. `str.lower` and the test for a decimal digit (`\d`) are parameters.
-- The text of a failure reason is a constructor with the values that it shows.
use llmops_rag_api.Prelude.{
  ◌++◌, Option, Bool, List, ℕ, ℤ, pos, zero, suc, ◌+◌, ◌*◌, min, true, false, not, ◌&&◌, ◌||◌, none,
  some, [], ◌∷◌, map, ◌==◌, if◌then◌else◌, length, keep,
}
use llmops_rag_api.Evaluation.Dataset.{GoldenCase, is_refusal_case, is_seen}
use llmops_rag_api.Rag.Pipeline.Query.{QueryResult, refusal_marker}
use llmops_rag_api.Text.{Text, strip, contains, is_empty}
use llmops_rag_api.Rounding.{Rounding}
use llmops_rag_api.Rag.VectorStore.{RetrievedChunk}
use llmops_rag_api.Prelude.Sort.{sort_by}

pub data Reason : Type 0 where
  unsupported_answer refused_answerable : Reason
  missed_doc : Option Text → List Text → Reason
  missed_keywords : List Text → Reason

pub record CaseScore : Type 0 where
  pub case_id : Text
  pub question : Text
  pub answer : Text
  pub retrieval_hit : Bool
  pub keyword_hit : Bool
  pub refused : Bool
  pub correct : Bool
  pub cites_sources : Bool
  pub latency_ms : ℕ
  pub cost_usd : ℕ
  pub retrieved_docs : List Text
  pub top_similarity : ℤ
  pub retrieved_chunks : ℕ
  pub failure_reason : Option Reason

-- The loop of `_doc_ids`, with the ids seen so far.
unfoldable pub doc_ids_from : List Text → List RetrievedChunk → List Text
unfolding is_seen
doc_ids_from seen [] = seen
doc_ids_from seen (c ∷ cs) =
    doc_ids_from
      (if not (is_empty c.doc_id) && not (is_seen c.doc_id seen)
        then seen ++ (c.doc_id ∷ [])
        else seen)
      cs

unfoldable pub doc_ids : List RetrievedChunk → List Text
unfolding doc_ids_from
doc_ids cs = doc_ids_from [] cs

unfoldable pub matches_expected_doc : Text → List Text → Bool
matches_expected_doc expected retrieved = is_seen expected retrieved

-- `… if case.expected_doc else False`
abbrev pub retrieval_hit_of : Option Text → List Text → Bool
retrieval_hit_of none retrieved = false
retrieval_hit_of (some []) retrieved = false
retrieval_hit_of (some (c ∷ s)) retrieved = matches_expected_doc (c ∷ s) retrieved

unfoldable pub any_keyword : (Text → Text) → List Text → Text → Bool
any_keyword lower [] lowered = false
any_keyword lower (k ∷ ks) lowered = contains lowered (lower k) || any_keyword lower ks lowered

abbrev pub keyword_hit_of : (Text → Text) → List Text → Text → Bool
keyword_hit_of lower [] lowered = true
keyword_hit_of lower (k ∷ ks) lowered = any_keyword lower (k ∷ ks) lowered

-- `\d*\]`
unfoldable pub closes : (ℕ → Bool) → Text → Bool
closes digit [] = false
closes digit (c ∷ s) = let rest = closes digit s in if digit c then rest else c == b']'

-- `\d+\]`
abbrev pub numbered : (ℕ → Bool) → Text → Bool
numbered digit [] = false
numbered digit (c ∷ s) = digit c && closes digit s

-- `re.compile(r"\[\d+\]").search(s)`
unfoldable pub cites : (ℕ → Bool) → Text → Bool
unfolding closes
cites digit [] = false
cites digit (c ∷ s) = (c == b'[' && numbered digit s) || cites digit s

-- `correct` and the failure reason, from the tests.
unfoldable pub judge : GoldenCase → Bool → Bool → Bool → List Text → Bool × Option Reason
unfolding is_refusal_case
judge case_ refused retrieval_hit keyword_hit retrieved =
    if is_refusal_case case_
    then (refused, (if refused then none else some unsupported_answer))
    else (
      retrieval_hit && (keyword_hit && not refused),
      (if refused
          then some refused_answerable
          else if not retrieval_hit
          then some (missed_doc case_.expected_doc retrieved)
          else if not keyword_hit
          then some (missed_keywords case_.expected_keywords)
          else none),
    )

abbrev pub first_similarity : List RetrievedChunk → ℤ
first_similarity [] = pos 0
first_similarity (c ∷ _) = c.similarity

-- The score of a result whose latency is given beside it.
unfoldable pub score_case : (Text → Text) → (ℕ → Bool) → GoldenCase → QueryResult → ℕ → CaseScore
unfolding judge doc_ids any_keyword matches_expected_doc
score_case lower digit case_ result latency =
    let answer = strip result.answer in
    let lowered = lower answer in
    let refused = contains lowered refusal_marker in
    let retrieved = doc_ids result.sources in
    let retrieval_hit = retrieval_hit_of case_.expected_doc retrieved in
    let keyword_hit = keyword_hit_of lower case_.expected_keywords lowered in
    let (correct, reason) = judge case_ refused retrieval_hit keyword_hit retrieved in
    record {
      case_id = case_.id;
      question = case_.question;
      answer = answer;
      retrieval_hit = retrieval_hit;
      keyword_hit = keyword_hit;
      refused = refused;
      correct = correct;
      cites_sources = not refused && cites digit answer;
      latency_ms = latency;
      cost_usd = result.cost_usd;
      retrieved_docs = retrieved;
      top_similarity = first_similarity result.sources;
      retrieved_chunks = length result.sources;
      failure_reason = reason;
    }

pub record EvalSummary : Type 0 where
  pub total : ℕ
  pub correct : ℕ
  pub accuracy : ℕ
  pub retrieval_hit_rate : ℕ
  pub refusal_accuracy : ℕ
  pub citation_rate : ℕ
  pub mean_latency_ms : ℕ
  pub p95_latency_ms : ℕ
  pub total_cost_usd : ℕ
  pub scores : List CaseScore

-- The property `failures`.
unfoldable pub failures : EvalSummary → List CaseScore
failures s = keep (λ (x : CaseScore). not x.correct) s.scores

unfoldable pub rate : Rounding → ℕ → ℕ → ℕ
rate rounding hits total = if total == 0 then 10_000 else rounding.round_ratio (hits * 10_000) total

abbrev pub nth : ℕ → List ℕ → ℕ
nth n [] = 0
nth zero (x ∷ xs) = x
nth (suc n) (x ∷ xs) = nth n xs

-- `_percentile(values, hundredths / 100)`
unfoldable pub percentile : Rounding → List ℕ → ℕ → ℕ
percentile rounding [] hundredths = 0
percentile rounding (v ∷ vs) hundredths =
    nth (min (length vs) (rounding.round_ratio (hundredths * length vs) 100))
      (sort_by (λ x. x) (v ∷ vs))

abbrev pub total_of : List ℕ → ℕ
total_of [] = 0
total_of (x ∷ xs) = x + total_of xs

abbrev pub ids_of : List GoldenCase → List Text
ids_of cs = map (λ (c : GoldenCase). c.id) cs

abbrev pub count_if : (CaseScore → Bool) → List CaseScore → ℕ
count_if p xs = length (keep p xs)

unfoldable pub summarise : Rounding → List GoldenCase → List CaseScore → EvalSummary
unfolding rate percentile is_seen is_refusal_case
summarise rounding cases scores =
    let grounded = ids_of (keep (λ (c : GoldenCase). not (is_refusal_case c)) cases) in
    let refusal = ids_of (keep is_refusal_case cases) in
    let retrieval_scored = keep (λ (s : CaseScore). is_seen s.case_id grounded) scores in
    let refusal_scored = keep (λ (s : CaseScore). is_seen s.case_id refusal) scores in
    let latencies = map (λ (s : CaseScore). s.latency_ms) scores in
    let correct = count_if (λ (s : CaseScore). s.correct) scores in
    record {
      total = length scores;
      correct = correct;
      accuracy = rate rounding correct (length scores);
      retrieval_hit_rate =
          rate rounding (count_if (λ (s : CaseScore). s.retrieval_hit) retrieval_scored)
            (length retrieval_scored);
      refusal_accuracy =
          rate rounding (count_if (λ (s : CaseScore). s.refused) refusal_scored)
            (length refusal_scored);
      citation_rate =
          rate rounding (count_if (λ (s : CaseScore). s.cites_sources) retrieval_scored)
            (length retrieval_scored);
      mean_latency_ms =
          if length latencies == 0
          then 0
          else rounding.round_ratio (total_of latencies) (length latencies);
      p95_latency_ms = percentile rounding latencies 95;
      total_cost_usd = total_of (map (λ (s : CaseScore). s.cost_usd) scores);
      scores = scores;
    }
