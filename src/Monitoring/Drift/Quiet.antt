-- ===== src/Monitoring/Drift/Quiet.antt =====
-- Which windows `compare` of src/app/monitoring/drift.py finds nothing in.
use llmops_rag_api.Prelude.{
  ltb→lt, Bool-cases, ◌<◌, ◌≤◌, ◌+◌, ◌*◌, ◌≡◌, refl, sym, ◌∙◌, inl, inr, false, [], arith,
  le-mul_right,
}
use llmops_rag_api.Monitoring.Ks.{ks_statistic, reaches_threshold}
use llmops_rag_api.Monitoring.Ks.Largest.{gap, ks_statistic-largest}
use llmops_rag_api.Monitoring.Drift.{
  Baseline, WindowStats, compare_window, z_reaches, moved, falls_short, other_version, ℕ, ltb,
  length,
}

product_positive : (a b : ℕ) → 0 < a → 0 < b → 0 < a * b
product_positive a b h k = let grows : 1 * b ≤ a * b = le-mul_right 1 a b h in omega (arith, grows)

-- A rate that has not risen reaches no bound.
z_reaches-steady : (bound a n b m : ℕ) → a * m ≤ b * n → z_reaches bound a n b m ≡ false
unfolding z_reaches
z_reaches-steady bound a n b m l = ground arith

threshold-zero : (n m c : ℕ) → 0 < c → reaches_threshold 0 n m c ≡ false
unfolding reaches_threshold
threshold-zero n m c h = elim (Bool-cases (ltb 0 n)) [
  | inr e ↦ rw e refl
  | inl e ↦ elim (Bool-cases (ltb 0 m)) [
    | inr f ↦ ground arith
    | inl f ↦
        let low = product_positive n m (ltb→lt 0 n e) (ltb→lt 0 m f) in
        let mid = product_positive (n + m) (n * m) (ground arith) low in
        let high = product_positive (c * c) ((n + m) * (n * m)) (product_positive c c h h) mid in
        ground (arith, high)
  ]
]

moved_same :
    (c : ℕ) (b : Baseline) (w : WindowStats)
    → 0 < c
    → ((v : ℕ) → gap w.similarities b.similarities v ≡ 0)
    → moved c b w ≡ false
unfolding moved
moved_same c b w h g =
    let (v, e) = (ks_statistic-largest w.similarities b.similarities).1 in
    let nothing : ks_statistic w.similarities b.similarities ≡ 0 = sym e ∙ g v in
    rw nothing (threshold-zero (length w.similarities) (length b.similarities) c h)

falls_short-steady :
    (b : Baseline) (w : WindowStats)
    → 0 < w.n
    → b.chunk_sum * w.n ≤ w.chunk_sum * b.n
    → falls_short 3 4 b w ≡ false
unfolding falls_short
falls_short-steady b w h l = elim (Bool-cases (ltb 0 b.chunk_sum)) [
  | inr e ↦ rw e refl
  | inl e ↦
      let some_chunks = product_positive b.chunk_sum w.n (ltb→lt 0 b.chunk_sum e) h in
      ground (arith, some_chunks)
]

-- There is no finding in a window of at least 30 queries in which the rates of refusals and of queries
-- without a hit are not above the reference, the similarities are distributed as there, the mean number of
-- chunks is not below, and no other version of the prompts has answered. Better rates are no finding either.
pub compare_window-quiet :
    (b : Baseline) (w : WindowStats)
    → 30 ≤ w.n
    → w.refusals * b.n ≤ b.refusals * w.n
    → w.ungrounded * b.n ≤ b.ungrounded * w.n
    → ((v : ℕ) → gap w.similarities b.similarities v ≡ 0)
    → b.chunk_sum * w.n ≤ w.chunk_sum * b.n
    → other_version b w.prompt_versions ≡ false
    → compare_window b w ≡ []
unfolding compare_window
compare_window-quiet b w large refusing ungrounded same chunks version =
    let enough : ltb w.n 30 ≡ false = ground arith in
    rw enough (
      rw (z_reaches-steady 1_960 w.refusals w.n b.refusals b.n refusing) (
        rw (z_reaches-steady 1_960 w.ungrounded w.n b.ungrounded b.n ungrounded) (
          rw (moved_same 1_358 b w (omega arith) same)
            (rw (falls_short-steady b w (omega arith) chunks) (rw version refl)))))
