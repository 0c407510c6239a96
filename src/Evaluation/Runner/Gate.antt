-- ===== src/Evaluation/Runner/Gate.antt =====
-- How many answers the gate of src/app/evaluation/runner.py lets through that should have been refusals.
use llmops_rag_api.Prelude.{
  ℕ, ◌+◌, ◌≤◌, ◌<◌, ◌↔◌, List, In, keep, arith, ◌*◌, ◌≡◌, refl, ◌≢◌, inl, inr, true, false, Option,
  none, some, [], ◌∷◌, length, Bool-cases, ltb→lt, Option-cases, lt→ltb, ap,
}
use llmops_rag_api.Rounding.{Rounding}
use llmops_rag_api.Evaluation.Dataset.{GoldenCase, is_refusal_case, is_seen}
use llmops_rag_api.Evaluation.Metrics.{CaseScore, EvalSummary, ids_of, count_if, rate, summarise}
use llmops_rag_api.Evaluation.Runner.{
  Thresholds, check_thresholds, low_refusal_accuracy, Bool, ltb, run_evaluation, Breach, breach_if,
  Text, low_citation_rate, QueryResult, low_hit_rate, default_thresholds, low_accuracy, score_all,
}

-- The scores of the cases that are to be refused.
abbrev pub to_refuse : List GoldenCase → List CaseScore → List CaseScore
to_refuse cases scores =
    keep (λ (s : CaseScore). is_seen s.case_id (ids_of (keep is_refusal_case cases))) scores

abbrev pub refused_of : List CaseScore → ℕ
refused_of ss = count_if (λ (s : CaseScore). s.refused) ss

-- A breach of another rate.
In-breach_if :
    (b : Bool) (x y : Breach) (rest : List Breach) → x ≢ y → In x (breach_if b y rest) ↔ In x rest
In-breach_if true x y rest d = ((λ i. elim i [ inl e ↦ absurd (d e) | inr j ↦ j ]), (λ j. inr j))
In-breach_if false x y rest d = ((λ j. j), (λ j. j))

In-own_breach :
    (b c : Bool)
    → In low_refusal_accuracy (breach_if b low_refusal_accuracy (breach_if c low_citation_rate []))
      ↔ (b ≡ true)
In-own_breach true c = ((λ i. refl), (λ e. inl refl))
In-own_breach false true = ((λ i. elim i [ inl e ↦ cc e | inr j ↦ absurd j ]), (λ e. cc e))
In-own_breach false false = ((λ i. absurd i), (λ e. cc e))

In-breaches :
    (t : Thresholds) (s : EvalSummary)
    → In low_refusal_accuracy (check_thresholds t s) ↔ (s.refusal_accuracy < t.refusal_accuracy)
unfolding check_thresholds
In-breaches t s =
    let own =
      In-own_breach (ltb s.refusal_accuracy t.refusal_accuracy)
        (ltb s.citation_rate t.citation_rate) in
    let tail =
      breach_if (ltb s.refusal_accuracy t.refusal_accuracy) low_refusal_accuracy
        (breach_if (ltb s.citation_rate t.citation_rate) low_citation_rate []) in
    let hit =
      In-breach_if (ltb s.retrieval_hit_rate t.retrieval_hit_rate) low_refusal_accuracy low_hit_rate
        tail (λ e. cc e) in
    let first =
      In-breach_if (ltb s.accuracy t.accuracy) low_refusal_accuracy low_accuracy
        (breach_if (ltb s.retrieval_hit_rate t.retrieval_hit_rate) low_hit_rate tail) (λ e. cc e) in
    (
      (λ i. ltb→lt s.refusal_accuracy t.refusal_accuracy (own.0 (hit.0 (first.0 i)))),
      (λ l. first.1 (hit.1 (own.1 (lt→ltb s.refusal_accuracy t.refusal_accuracy l)))),
    )

-- Of 67 answers, one may be no refusal.
rate_of_67 :
    (rounding : Rounding) (refused : ℕ)
    → refused ≤ 67
    → (rate rounding refused 67 < 9_800) ↔ (refused + 2 ≤ 67)
unfolding rate
rate_of_67 rounding refused l = (
  (λ h. omega (arith, rounding.not_below (refused * 10_000) 67 (omega arith), h)),
  (λ h. omega (arith, rounding.not_above (refused * 10_000) 67 (omega arith), h)),
)

length-keep-le : {A : Type 0} (p : A → Bool) (xs : List A) → length (keep p xs) ≤ length xs
length-keep-le p [] = omega arith
length-keep-le p (x ∷ xs) = elim (Bool-cases (p x)) [
  | inl e ↦ rw e (omega (arith, length-keep-le p xs))
  | inr e ↦ rw e (omega (arith, length-keep-le p xs))
]

gate_of_67 :
    (rounding : Rounding) (cases : List GoldenCase) (scores : List CaseScore)
    → length (to_refuse cases scores) ≡ 67
    → In low_refusal_accuracy
        (check_thresholds default_thresholds (summarise rounding cases scores))
      ↔ (refused_of (to_refuse cases scores) + 2 ≤ 67)
unfolding summarise
gate_of_67 rounding cases scores n =
    let asked = to_refuse cases scores in
    let few : refused_of asked ≤ 67 =
      omega (arith, n, length-keep-le (λ (s : CaseScore). s.refused) asked) in
    let rated : (rate rounding (refused_of asked) (length asked) < 9_800)
        ↔ (refused_of asked + 2 ≤ 67) =
      rw n (rate_of_67 rounding (refused_of asked) few) in
    let gate = In-breaches default_thresholds (summarise rounding cases scores) in
    ((λ i. rated.0 (gate.0 i)), (λ l. gate.1 (rated.1 l)))

-- With the default thresholds, a run over a golden set with 67 questions that are to be refused is failed for
-- the accuracy of its refusals exactly if at least two of them were answered, however `round` treats a tie.
pub run_evaluation-refusals :
    (lower : Text → Text) (digit : ℕ → Bool) (query : Text → Option (QueryResult × ℕ))
    (rounding : Rounding) (cases : List GoldenCase) (summary : EvalSummary) (breaches : List Breach)
    → run_evaluation lower digit query rounding default_thresholds cases ≡ some (summary, breaches)
    → length (to_refuse cases summary.scores) ≡ 67
    → In low_refusal_accuracy breaches ↔ (refused_of (to_refuse cases summary.scores) + 2 ≤ 67)
unfolding run_evaluation summarise
run_evaluation-refusals lower digit query rounding cases summary breaches e n =
    elim (Option-cases (score_all lower digit query cases)) [
      | inl f ↦ absurd (clash (rw (f, run_evaluation) at e))
      | inr (scores, f) ↦ of_scores scores (rw (f, run_evaluation) at e)
    ]
  where
    clash : ◌≡◌ {A = Option (EvalSummary × List Breach)} none (some (summary, breaches)) → ⊥
    clash k = cc

    of_scores :
        (scores : List CaseScore)
        → ◌≡◌ {A = Option (EvalSummary × List Breach)}
            (some (
              summarise rounding cases scores,
              check_thresholds default_thresholds (summarise rounding cases scores),
            ))
            (some (summary, breaches))
        → In low_refusal_accuracy breaches ↔ (refused_of (to_refuse cases summary.scores) + 2 ≤ 67)
    of_scores scores k =
        let summarised : summarise rounding cases scores ≡ summary = cc k in
        let checked : check_thresholds default_thresholds (summarise rounding cases scores)
            ≡ breaches =
          cc k in
        let held : scores ≡ summary.scores = ap (λ (s : EvalSummary). s.scores) summarised in
        rw (← checked) (rw (← held) (gate_of_67 rounding cases scores (rw (← held) at n)))
