-- ===== src/Evaluation/Scoring.antt =====
-- When a case of src/app/evaluation/metrics.py counts as correct, and what an accuracy of 1 says.
use llmops_rag_api.Prelude.{
  Bool, List, ℕ, ◌+◌, ◌≤◌, ◌<◌, ◌≡◌, refl, sym, ◌↔◌, ◌⊎◌, inl, inr, true, not, none, [], ◌∷◌, arith,
  In, length, Bool-cases, keep, ◌*◌, ap, ◌&&◌, ◌++◌, ◌==◌, leb, false, Option, some, le-mul_right,
  leb→le,
}
use llmops_rag_api.Evaluation.Dataset.{GoldenCase, is_seen, is_refusal_case}
use llmops_rag_api.Evaluation.Metrics.{
  CaseScore, judge, doc_ids_from, rate, summarise, failures, score_case, doc_ids,
  matches_expected_doc, retrieval_hit_of, keyword_hit_of,
}
use llmops_rag_api.Text.{Text, text_eq, text_eq_sound, is_empty, strip, contains}
use llmops_rag_api.Rounding.{Rounding}
use llmops_rag_api.Rag.VectorStore.{RetrievedChunk}
use llmops_rag_api.Rag.Pipeline.Query.{QueryResult, refusal_marker}

is_seen-In : (id : Text) (seen : List Text) → is_seen id seen ≡ true → In id seen
unfolding is_seen
is_seen-In id [] h = absurd (cc h)
is_seen-In id (s ∷ seen) h = elim (Bool-cases (text_eq s id)) [
  | inl e ↦ inl (sym (text_eq_sound s id e))
  | inr e ↦ inr (is_seen-In id seen (rw e at h))
]

In-append : {A : Type 0} (a : A) (xs ys : List A) → In a (xs ++ ys) → In a xs ⊎ In a ys
In-append a [] ys h = inr h
In-append a (x ∷ xs) ys (inl e) = inl (inl e)
In-append a (x ∷ xs) ys (inr i) = elim (In-append a xs ys i) [ inl k ↦ inl (inr k) | inr k ↦ inr k ]

-- An id that the loop returns was seen before or is that of a source.
abbrev FromSource : Text → List Text → List RetrievedChunk → Type 0
FromSource id seen cs = In id seen ⊎ ((c : RetrievedChunk) × In c cs × (c.doc_id ≡ id))

doc_ids_from-FromSource :
    (id : Text) (seen : List Text) (cs : List RetrievedChunk)
    → In id (doc_ids_from seen cs)
    → FromSource id seen cs
unfolding doc_ids_from
doc_ids_from-FromSource id seen [] h = inl h
doc_ids_from-FromSource id seen (c ∷ cs) h =
    elim (Bool-cases (not (is_empty c.doc_id) && not (is_seen c.doc_id seen))) [
      | inr e ↦ later (doc_ids_from-FromSource id seen cs (rw e at h))
      | inl e ↦ elim (doc_ids_from-FromSource id (seen ++ (c.doc_id ∷ [])) cs (rw e at h)) [
        | inl i ↦ elim (In-append id seen (c.doc_id ∷ []) i) [
          | inl k ↦ inl k
          | inr (inl k) ↦ inr (c, inl refl, sym k)
          | inr (inr k) ↦ absurd k
        ]
        | inr (d, i, k) ↦ inr (d, inr i, k)
      ]
    ]
  where
    later : FromSource id seen cs → FromSource id seen (c ∷ cs)
    later (inl i) = inl i
    later (inr (d, i, k)) = inr (d, inr i, k)

judge-reason :
    (g : GoldenCase) (refused retrieval_hit keyword_hit : Bool) (retrieved : List Text)
    → let (correct, reason) = judge g refused retrieval_hit keyword_hit retrieved in
      (correct ≡ true) ↔ (reason ≡ none)
unfolding judge
judge-reason g refused retrieval_hit keyword_hit retrieved = ground arith

nearest_whole :
    (t q : ℕ)
    → 0 < t
    → 2 * (t * q) ≤ 2 * (t * 10_000) + t
    → 2 * (t * 10_000) ≤ 2 * (t * q) + t
    → q ≡ 10_000
nearest_whole t q p a b = elim (Bool-cases (leb q 9_999)) [
  | inl e ↦
      let small : q * t ≤ 9_999 * t = le-mul_right q 9_999 t (leb→le q 9_999 e) in
      absurd (grind (arith, small))
  | inr e ↦ elim (Bool-cases (leb 10_001 q)) [
    | inl f ↦
        let large : 10_001 * t ≤ q * t = le-mul_right 10_001 q t (leb→le 10_001 q f) in
        absurd (grind (arith, large))
    | inr f ↦ ground arith
  ]
]

rate-full :
    (rounding : Rounding) (hits total : ℕ)
    → hits ≤ total
    → total < 20_000
    → (rate rounding hits total ≡ 10_000) ↔ (hits ≡ total)
unfolding rate
rate-full rounding hits total l b = elim (Bool-cases (total == 0)) [
  | inl e ↦ rw e ((λ h. ground arith), (λ h. refl))
  | inr e ↦
      let positive : 0 < total = ground arith in
      let above = rounding.not_above (hits * 10_000) total positive in
      let below = rounding.not_below (hits * 10_000) total positive in
      rw e (
        (λ h. omega (arith, rw h at above, b, l)),
        (λ h.
            nearest_whole total (rounding.round_ratio (hits * 10_000) total) positive
              (omega (arith, above, h)) (omega (arith, below, h))),
      )
]

count-failures :
    (xs : List CaseScore)
    → length (keep (λ (s : CaseScore). s.correct) xs)
        + length (keep (λ (s : CaseScore). not s.correct) xs)
      ≡ length xs
count-failures [] = refl
count-failures (x ∷ xs) = ground (arith, count-failures xs)

-- For fewer than 20000 scores the reported accuracy, which is rounded to four decimals, is 1 exactly
-- when no case failed.
pub accuracy-failures :
    (rounding : Rounding) (cases : List GoldenCase) (scores : List CaseScore)
    → length scores < 20_000
    → let summary = summarise rounding cases scores in
      (summary.accuracy ≡ 10_000) ↔ (failures summary ≡ [])
unfolding summarise failures
accuracy-failures rounding cases scores b =
    let good = keep (λ (s : CaseScore). s.correct) scores in
    let split = count-failures scores in
    let full = rate-full rounding (length good) (length scores) (omega (arith, split)) b in
    (
      (λ h.
          empty-length (keep (λ (s : CaseScore). not s.correct) scores)
            (omega (arith, full.0 h, split))),
      (λ h. full.1 (all_good h)),
    )
  where
    all_good :
        keep (λ (s : CaseScore). not s.correct) scores ≡ []
        → length (keep (λ (s : CaseScore). s.correct) scores) ≡ length scores
    all_good h = omega (arith, count-failures scores, ap length h)

    empty-length : (xs : List CaseScore) → length xs ≡ 0 → xs ≡ []
    empty-length [] e = refl
    empty-length (x ∷ xs) e = absurd (omega (arith, e))

judge-correct :
    (g : GoldenCase) (refused hit keyword : Bool) (retrieved : List Text)
    → let (correct, reason) = judge g refused hit keyword retrieved in
      (is_refusal_case g ≡ true → correct ≡ refused)
      × (is_refusal_case g ≡ false → correct ≡ true → (hit ≡ true) × (refused ≡ false))
unfolding judge
judge-correct g refused hit keyword retrieved = ground arith

judged :
    (lower : Text → Text) (digit : ℕ → Bool) (g : GoldenCase) (result : QueryResult) (latency : ℕ)
    → let score = score_case lower digit g result latency in
      ((score.correct ≡ true) ↔ (score.failure_reason ≡ none))
      × (is_refusal_case g ≡ true → score.correct ≡ score.refused)
      × (is_refusal_case g ≡ false
          → score.correct ≡ true
          → (score.retrieval_hit ≡ true) × (score.refused ≡ false))
unfolding score_case
judged lower digit g result latency =
    let answer = strip result.answer in
    let refused = contains (lower answer) refusal_marker in
    let retrieved = doc_ids result.sources in
    let hit = retrieval_hit_of g.expected_doc retrieved in
    let keyword = keyword_hit_of lower g.expected_keywords (lower answer) in
    let rest = judge-correct g refused hit keyword retrieved in
    (judge-reason g refused hit keyword retrieved, rest.0, rest.1)

retrieval_hit_of-source :
    (expected : Option Text) (cs : List RetrievedChunk)
    → retrieval_hit_of expected (doc_ids cs) ≡ true
    → (id : Text) × (expected ≡ some id) × ((c : RetrievedChunk) × In c cs × (c.doc_id ≡ id))
unfolding doc_ids matches_expected_doc
retrieval_hit_of-source none cs h = absurd (cc h)
retrieval_hit_of-source (some []) cs h = absurd (cc h)
retrieval_hit_of-source (some (x ∷ s)) cs h =
    elim (doc_ids_from-FromSource (x ∷ s) [] cs (is_seen-In (x ∷ s) (doc_ids cs) h)) [
      | inl i ↦ absurd i
      | inr found ↦ (x ∷ s, refl, found)
    ]

-- A case counts as correct exactly when it has no failure reason. A refusal case is correct exactly
-- when the answer refuses. Any other correct case has an expected document, a source with exactly that
-- document's id, and an answer that does not refuse.
pub score_case-correct :
    (lower : Text → Text) (digit : ℕ → Bool) (g : GoldenCase) (result : QueryResult) (latency : ℕ)
    → let score = score_case lower digit g result latency in
      ((score.correct ≡ true) ↔ (score.failure_reason ≡ none))
      × (is_refusal_case g ≡ true → score.correct ≡ score.refused)
      × (is_refusal_case g ≡ false
          → score.correct ≡ true
          → ((id : Text) × (g.expected_doc ≡ some id)
              × ((c : RetrievedChunk) × In c result.sources × (c.doc_id ≡ id)))
            × (score.refused ≡ false))
unfolding score_case
score_case-correct lower digit g result latency =
    let (reason, refusal, grounded) = judged lower digit g result latency in
    (
      reason,
      refusal,
      (λ f h. (
        retrieval_hit_of-source g.expected_doc result.sources (grounded f h).0,
        (grounded f h).1,
      )),
    )
