-- ===== src/Monitoring/Drift/Diagnosis.antt =====
-- What each verdict of `diagnose` of src/app/monitoring/drift.py says of the signals that `compare` tested.
use llmops_rag_api.Prelude.{
  Bool-cases, ltb→lt, ◌≡◌, false, not, ◌||◌, List, ◌++◌, arith, ◌≢◌, ◌↔◌, true, ◌&&◌, if◌then◌else◌,
  ◌≤◌, ◌<◌, refl, sym, subst, inl, inr, ◌∷◌,
}
use llmops_rag_api.Monitoring.Drift.{
  warn, Finding, found, has_signal, no_findings, refusal_rate, ungrounded_rate, top_similarity,
  retrieved_chunks, prompt_version, window, Bool, not_enough, no_drift, content_gap,
  retrieval_regression, off_topic, Verdict, off_topic_scores, scores_moved, other_drift, [],
  diagnose, compare_window, Baseline, WindowStats, scores_fell, z_reaches, z_warn, moved, ks_warn,
  falls_short, z_alert, other_version, ks_alert, ltb,
}

-- The findings of a window that is large enough, from the results of the tests.
abbrev scored : Bool → Bool → Bool → Bool → Bool → Bool → Bool → Bool → Bool → List Finding
scored r r' u u' m m' f f' p =
    found refusal_rate r r'
    ++ (found ungrounded_rate u u'
        ++ (found top_similarity m m'
            ++ (found retrieved_chunks f f' ++ found prompt_version p false)))

scored-signals :
    (r r' u u' m m' f f' p : Bool)
    → let fs = scored r r' u u' m m' f f' p in
      (has_signal refusal_rate fs ≡ r)
      × (has_signal ungrounded_rate fs ≡ u)
      × (has_signal top_similarity fs ≡ m)
      × (has_signal retrieved_chunks fs ≡ f)
      × (has_signal window fs ≡ false)
      × (no_findings fs ≡ not (r || (u || (m || (f || p)))))
unfolding has_signal
scored-signals r r' u u' m m' f f' p = ground arith

-- The choice of the verdict among the results of its tests.
abbrev choose : Bool → Bool → Bool → Bool → Bool → Bool → Bool → Verdict
choose nothing windowed r u m f fell =
    if nothing
    then no_drift
    else if windowed
    then not_enough
    else if r && (f && not u)
    then retrieval_regression
    else if r && u
    then off_topic
    else if r && (m && fell)
    then off_topic_scores
    else if r && not m
    then content_gap
    else if m && not r
    then scores_moved
    else other_drift

-- What each of the verdicts says of the tests.
abbrev Meaning : Verdict → Bool → Bool → Bool → Bool → Bool → Type 0
Meaning v r u m f p =
    (v ≢ not_enough)
    × ((v ≡ no_drift) ↔ ((r || (u || (m || (f || p)))) ≡ false))
    × ((v ≡ content_gap) ↔ ((r ≡ true) × (u ≡ false) × (m ≡ false) × (f ≡ false)))
    × ((v ≡ retrieval_regression) ↔ ((r ≡ true) × (u ≡ false) × (f ≡ true)))
    × ((v ≡ off_topic) ↔ ((r ≡ true) × (u ≡ true)))

choose-Meaning :
    (r u m f p fell : Bool)
    → Meaning (choose (not (r || (u || (m || (f || p))))) false r u m f fell) r u m f p
choose-Meaning true true m f p fell = ground arith
choose-Meaning true false true f p fell = ground arith
choose-Meaning true false false f p fell = ground arith
choose-Meaning false u true f p fell = ground arith
choose-Meaning false true false f p fell = ground arith
choose-Meaning false false false f p fell = ground arith

scored-empty :
    (r r' u u' m m' f f' p : Bool)
    → ((r || (u || (m || (f || p)))) ≡ false) ↔ (scored r r' u u' m m' f f' p ≡ [])
scored-empty true r' u u' m m' f f' p = ((λ h. cc h), (λ h. cc h))
scored-empty false r' true u' m m' f f' p = ((λ h. cc h), (λ h. cc h))
scored-empty false r' false u' true m' f f' p = ((λ h. cc h), (λ h. cc h))
scored-empty false r' false u' false m' true f' p = ((λ h. cc h), (λ h. cc h))
scored-empty false r' false u' false m' false f' true = ((λ h. cc h), (λ h. cc h))
scored-empty false r' false u' false m' false f' false = ((λ h. refl), (λ h. refl))

diagnose-scored :
    (b : Baseline) (w : WindowStats) (r r' u u' m m' f f' p : Bool)
    → Meaning (diagnose b w (scored r r' u u' m m' f f' p)) r u m f p
unfolding diagnose
diagnose-scored b w r r' u u' m m' f f' p =
    let s = scored-signals r r' u u' m m' f f' p in
    let same : diagnose b w (scored r r' u u' m m' f f' p)
        ≡ choose (not (r || (u || (m || (f || p))))) false r u m f (scores_fell b w) =
      λ i. choose (s.5 i) (s.4 i) (s.0 i) (s.1 i) (s.2 i) (s.3 i) (scores_fell b w) in
    subst (λ v. Meaning v r u m f p) (sym same) (choose-Meaning r u m f p (scores_fell b w))

iff_trans : {A B C : Type 0} → A ↔ B → B ↔ C → A ↔ C
iff_trans f g = ((λ a. g.0 (f.0 a)), (λ c. f.1 (g.1 c)))

diagnose_short :
    (b : Baseline) (w : WindowStats)
    → diagnose b w (record { signal = window; severity = warn } ∷ []) ≡ not_enough
unfolding diagnose
diagnose_short b w = refl

-- The verdict is that there is too little traffic exactly for a window of fewer than 30 queries. For any
-- other it is "no drift" exactly when there is no finding; a content gap exactly when refusals have
-- risen and neither the share of queries without a hit, the scores nor the number of chunks has moved;
-- a retrieval regression exactly when refusals have risen with fewer chunks and not with queries without
-- a hit; and off-topic traffic for both refusals and queries without a hit exactly when both have risen.
pub diagnose-Meaning :
    (b : Baseline) (w : WindowStats)
    → let v = diagnose b w (compare_window b w) in
      let refusing = z_reaches z_warn w.refusals w.n b.refusals b.n in
      let ungrounded = z_reaches z_warn w.ungrounded w.n b.ungrounded b.n in
      let scores = moved ks_warn b w in
      let fewer = falls_short 3 4 b w in
      ((v ≡ not_enough) ↔ (w.n < 30))
      × (30 ≤ w.n
          → ((v ≡ no_drift) ↔ (compare_window b w ≡ []))
            × ((v ≡ content_gap)
                ↔ ((refusing ≡ true) × (ungrounded ≡ false) × (scores ≡ false) × (fewer ≡ false)))
            × ((v ≡ retrieval_regression)
                ↔ ((refusing ≡ true) × (ungrounded ≡ false) × (fewer ≡ true)))
            × ((v ≡ off_topic) ↔ ((refusing ≡ true) × (ungrounded ≡ true))))
unfolding compare_window
diagnose-Meaning b w =
    let r = z_reaches z_warn w.refusals w.n b.refusals b.n in
    let r' = z_reaches z_alert w.refusals w.n b.refusals b.n in
    let u = z_reaches z_warn w.ungrounded w.n b.ungrounded b.n in
    let u' = z_reaches z_alert w.ungrounded w.n b.ungrounded b.n in
    let m = moved ks_warn b w in
    let f = falls_short 3 4 b w in
    let p = other_version b w.prompt_versions in
    let t = diagnose-scored b w r r' u u' m (moved ks_alert b w) f (falls_short 3 5 b w) p in
    let e = scored-empty r r' u u' m (moved ks_alert b w) f (falls_short 3 5 b w) p in
    elim (Bool-cases (ltb w.n 30)) [
      | inl x ↦
          let small : w.n < 30 = ltb→lt w.n 30 x in
          rw x (((λ h. small), (λ h. diagnose_short b w)), (λ h. absurd (omega arith)))
      | inr x ↦
          let large : 30 ≤ w.n = ground arith in
          rw x (
            ((λ h. absurd (t.0 h)), (λ h. absurd (omega arith))),
            (λ h. (iff_trans t.1 e, t.2, t.3, t.4)),
          )
    ]
