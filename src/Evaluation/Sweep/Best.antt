-- ===== src/Evaluation/Sweep/Best.antt =====
-- What `run_sweep` of src/app/evaluation/sweep.py returns for a grid that `build_grid` has made.
use llmops_rag_api.Prelude.Ranked.{IsRanked, sort_ranked-Shuffle, sort_ranked-IsRanked}
use llmops_rag_api.Prelude.{
  ℕ, List, Bool, map, All, In, inl, inr, ◌≡◌, refl, ◌⊎◌, ◌↔◌, ltb, ◌==◌, ◌&&◌, ◌||◌, true, false,
  arith, ap, ◌∙◌, Option, none, some, [], ◌∷◌, Option-cases, sym, not,
}
use llmops_rag_api.Prelude.Sort.{Shuffle, Picks, here, there, done, pick}
use llmops_rag_api.Evaluation.Sweep.{
  SweepResult, score_leb, Text, Rounding, SweepPoint, SweepPipeline, GoldenCase, evaluate_point,
  evaluate_all, run_sweep, sweep_result, build_grid, keep, Tally, is_refusal_case, tally_cases,
  length, tally_grounded, tally_refusal, no_tally, sort_ranked,
}
use llmops_rag_api.Evaluation.Sweep.Grid.{InGrid, build_grid-InGrid}

-- The comparison of the first places, and of what follows where they are equal.
abbrev leads : ℕ → ℕ → Bool → Bool
leads a b rest = ltb a b || (a == b && rest)

leads_total :
    (a b : ℕ) (r s : Bool) → (r ≡ false → s ≡ true) → leads a b r ≡ false → leads b a s ≡ true
leads_total a b true s h e = ground arith
leads_total a b false true h e = ground arith
leads_total a b false false h e = absurd (clash (h refl))
  where
    clash : false ≡ true → ⊥
    clash k = cc

leads_trans :
    (a b c : ℕ) (r s t : Bool)
    → (r ≡ true → s ≡ true → t ≡ true)
    → leads a b r ≡ true
    → leads b c s ≡ true
    → leads a c t ≡ true
leads_trans a b c true true t h e f = let last : t ≡ true = h refl refl in ground arith
leads_trans a b c false s t h e f = ground arith
leads_trans a b c true false t h e f = ground arith

score_leb_total : (r s : SweepResult) → score_leb r s ≡ false → score_leb s r ≡ true
unfolding score_leb
score_leb_total r s = leads_total r.answerable_rate s.answerable_rate _ _ (
    leads_total r.retrieval_hit_rate s.retrieval_hit_rate _ _
      (leads_total r.empty_on_out_of_corpus s.empty_on_out_of_corpus _ _ (λ e. ground arith)))

score_leb_trans :
    (r s t : SweepResult) → score_leb r s ≡ true → score_leb s t ≡ true → score_leb r t ≡ true
unfolding score_leb
score_leb_trans r s t = leads_trans r.answerable_rate s.answerable_rate t.answerable_rate _ _ _ (
    leads_trans r.retrieval_hit_rate s.retrieval_hit_rate t.retrieval_hit_rate _ _ _ (
      leads_trans r.empty_on_out_of_corpus s.empty_on_out_of_corpus t.empty_on_out_of_corpus _ _ _
        (λ e f. ground arith)))

module _ {A B : Type 0} (f : A → B) where
  Picks-map : {x : A} {d r : List A} → Picks x d r → Picks (f x) (map f d) (map f r)
  Picks-map here = here
  Picks-map (there p) = there (Picks-map p)

  Shuffle-map : {d s : List A} → Shuffle d s → Shuffle (map f d) (map f s)
  Shuffle-map done = done
  Shuffle-map (pick p q) = pick (Picks-map p) (Shuffle-map q)

module _ {A : Type 0} where
  In-Picks : (a : A) {x : A} {d r : List A} → Picks x d r → In a d ↔ ((a ≡ x) ⊎ In a r)
  In-Picks a here = ((λ i. i), (λ i. i))
  In-Picks a (there p) =
      let k = In-Picks a p in
      (
        (λ i. elim i [
          | inl e ↦ inr (inl e)
          | inr j ↦ elim (k.0 j) [ inl e ↦ inl e | inr m ↦ inr (inr m) ]
        ]),
        (λ i. elim i [
          | inl e ↦ inr (k.1 (inl e))
          | inr j ↦ elim j [ inl e ↦ inl e | inr m ↦ inr (k.1 (inr m)) ]
        ]),
      )

  In-Shuffle : (a : A) {d s : List A} → Shuffle d s → In a d ↔ In a s
  In-Shuffle a done = ((λ i. i), (λ i. i))
  In-Shuffle a (pick p q) =
      let k = In-Picks a p in
      let m = In-Shuffle a q in
      (
        (λ i. elim (k.0 i) [ inl e ↦ inl e | inr j ↦ inr (m.0 j) ]),
        (λ i. elim i [ inl e ↦ k.1 (inl e) | inr j ↦ k.1 (inr (m.1 j)) ]),
      )

  All-Picks_back {κ} :
      (P : A → Type κ) {x : A} {d r : List A} → Picks x d r → All P d → P x × All P r
  All-Picks_back P here h = h
  All-Picks_back P (there p) h = let k = All-Picks_back P p h.1 in (k.0, (h.0, k.1))

  All-Shuffle_back {κ} : (P : A → Type κ) {d s : List A} → Shuffle d s → All P d → All P s
  All-Shuffle_back P done h = tt
  All-Shuffle_back P (pick p q) h = let k = All-Picks_back P p h in (k.0, All-Shuffle_back P q k.1)

module _ (lower : Text → Text) (rounding : Rounding) (embedding_model : Text)
    (build_pipeline_for : SweepPoint → SweepPipeline) (cases : List GoldenCase) where
  abbrev evaluated : SweepPoint → Option SweepResult
  evaluated = evaluate_point lower rounding embedding_model build_pipeline_for cases

  abbrev grounded : List GoldenCase
  grounded = keep (λ (c : GoldenCase). not (is_refusal_case c)) cases

  abbrev refusals : List GoldenCase
  refusals = keep is_refusal_case cases

  abbrev first_tally : SweepPoint → Option Tally
  first_tally p =
      tally_cases lower rounding embedding_model (build_pipeline_for p) p.top_k
        (tally_grounded lower) grounded no_tally

  abbrev second_tally : SweepPoint → Tally → Option Tally
  second_tally p t =
      tally_cases lower rounding embedding_model (build_pipeline_for p) p.top_k (λ c. tally_refusal)
        refusals t

  -- The result is that of its point.
  abbrev pub IsEvaluated : SweepResult → Type 0
  IsEvaluated r =
      evaluate_point lower rounding embedding_model build_pipeline_for cases r.point ≡ some r

  evaluate_point-point : (p : SweepPoint) (r : SweepResult) → evaluated p ≡ some r → r.point ≡ p
  unfolding evaluate_point sweep_result
  evaluate_point-point p r e = elim (Option-cases (build_pipeline_for p).corpus) [
    | inl x ↦ absurd (clash (rw (x, evaluate_point) at e))
    | inr ((chunks, tokens), x) ↦ elim (Option-cases (first_tally p)) [
      | inl y ↦ absurd (clash (rw (y, evaluate_point) at (rw (x, evaluate_point) at e)))
      | inr (t, y) ↦ elim (Option-cases (second_tally p t)) [
        | inl z ↦ absurd (
            clash
              (rw (z, evaluate_point) at (rw (y, evaluate_point) at (rw (x, evaluate_point) at e))))
        | inr (t', z) ↦
            same_point chunks tokens t'
              (rw (z, evaluate_point) at (rw (y, evaluate_point) at (rw (x, evaluate_point) at e)))
      ]
    ]
  ]
    where
      clash : none ≡ some r → ⊥
      clash k = cc

      same_point :
          (chunks tokens : ℕ) (t : Tally)
          → some (
              sweep_result lower rounding embedding_model p chunks tokens
                (length grounded)
                (length refusals)
                t)
            ≡ some r
          → r.point ≡ p
      same_point chunks tokens t k =
          let same : sweep_result lower rounding embedding_model p chunks tokens (length grounded)
                (length refusals) t
              ≡ r =
            cc k in
          sym (ap (λ (q : SweepResult). q.point) same)

  evaluate_all-cases :
      (grid : List SweepPoint)
      → let all = evaluate_all lower rounding embedding_model build_pipeline_for cases grid in
        ((p : SweepPoint) × In p grid × (evaluated p ≡ none) × (all ≡ none))
        ⊎ ((rs : List SweepResult) × (all ≡ some rs)
            × (map (λ (r : SweepResult). r.point) rs ≡ grid)
            × All IsEvaluated rs)
  unfolding evaluate_all
  evaluate_all-cases [] = inr ([], refl, refl, tt)
  evaluate_all-cases (p ∷ grid) = elim (Option-cases (evaluated p)) [
    | inl e ↦ inl (p, inl refl, e, rw (e, evaluate_all) refl)
    | inr (r, e) ↦ elim (evaluate_all-cases grid) [
      | inl (q, i, f, k) ↦ inl (q, inr i, f, rw (e, evaluate_all) (rw (k, evaluate_all) refl))
      | inr (rs, k, same, each) ↦
          let at = evaluate_point-point p r e in
          inr (
            r ∷ rs,
            rw (e, evaluate_all) (rw (k, evaluate_all) refl),
            (λ i. at i ∷ same i),
            ((ap evaluated at ∙ e), each),
          )
    ]
  ]

  -- Over a grid of `build_grid`, the sweep either raises, where the evaluation of one of the points does, or
  -- returns a result for exactly the combinations of the given values whose overlap is below their chunk size:
  -- each is what the evaluation of its point gives, and none has a lower score than a later one.
  pub run_sweep-IsRanked :
      (sizes overlaps ks floors : List ℕ)
      → let swept =
          run_sweep lower rounding embedding_model build_pipeline_for cases
            (build_grid sizes overlaps ks floors) in
        ((p : SweepPoint) × InGrid sizes overlaps ks floors p
          × (evaluated p ≡ none)
          × (swept ≡ none))
        ⊎ ((rs : List SweepResult) × (swept ≡ some rs)
            × ((p : SweepPoint)
                → In p (map (λ (r : SweepResult). r.point) rs) ↔ InGrid sizes overlaps ks floors p)
            × All IsEvaluated rs
            × IsRanked score_leb rs)
  unfolding run_sweep
  run_sweep-IsRanked sizes overlaps ks floors =
      elim (evaluate_all-cases (build_grid sizes overlaps ks floors)) [
        | inl (p, i, e, k) ↦
            inl (p, (build_grid-InGrid sizes overlaps ks floors p).0 i, e, rw (k, run_sweep) refl)
        | inr (rs, k, same, each) ↦
            let mixed = sort_ranked-Shuffle score_leb rs in
            inr (
              sort_ranked score_leb rs,
              rw (k, run_sweep) refl,
              (λ p.
                  let points = In-Shuffle p (Shuffle-map (λ (r : SweepResult). r.point) mixed) in
                  let grid = build_grid-InGrid sizes overlaps ks floors p in
                  ((λ i. grid.0 (rw same at (points.1 i))), (λ h. points.0 (rw same (grid.1 h))))),
              All-Shuffle_back IsEvaluated mixed each,
              sort_ranked-IsRanked score_leb score_leb_total score_leb_trans rs,
            )
      ]
