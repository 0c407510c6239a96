-- ===== src/Monitoring/Ks.antt =====
-- `ks_statistic` and `ks_threshold` of src/app/monitoring/drift.py. For samples of n and m values the
-- statistic is counted in units of 1 / (n * m), so that it is a whole number, and it is compared with the
-- threshold by squares, so that nothing is rounded.
pub mod Skip
pub mod Largest
use llmops_rag_api.Prelude.{
  ℕ, zero, suc, ◌+◌, ◌-◌, ◌*◌, min, max, Bool, List, [], ◌∷◌, length, leb, ltb, ◌&&◌, if◌then◌else◌,
}
use llmops_rag_api.Prelude.Sort.{sort_by}

-- `while i < len(s) and s[i] <= value: i += 1`, on the values that are left.
unfoldable pub skip : ℕ → ℕ → List ℕ → ℕ × List ℕ
skip value i [] = (i, [])
skip value i (x ∷ xs) =
    let rest = skip value (suc i) xs in if leb x value then rest else (i, x ∷ xs)

abbrev pub distance : ℕ → ℕ → ℕ
distance a b = (a - b) + (b - a)

-- The outer loop, with the rounds that are left.
unfoldable pub ks_loop : ℕ → ℕ → ℕ → ℕ → ℕ → ℕ → List ℕ → List ℕ → ℕ
unfolding skip
ks_loop zero n m i j d sa sb = d
ks_loop (suc fuel) n m i j d [] sb = d
ks_loop (suc fuel) n m i j d (x ∷ sa) [] = d
ks_loop (suc fuel) n m i j d (x ∷ sa) (y ∷ sb) =
    let value = min x y in
    let (i', ra) = skip value i (x ∷ sa) in
    let (j', rb) = skip value j (y ∷ sb) in
    ks_loop fuel n m i' j' (max d (distance (i' * m) (j' * n))) ra rb

unfoldable pub ks_statistic : List ℕ → List ℕ → ℕ
unfolding ks_loop
ks_statistic [] b = 0
ks_statistic (x ∷ a) [] = 0
ks_statistic (x ∷ a) (y ∷ b) =
    ks_loop (length (x ∷ a) + length (y ∷ b)) (length (x ∷ a)) (length (y ∷ b)) 0 0 0
      (sort_by (λ v. v) (x ∷ a)) (sort_by (λ v. v) (y ∷ b))

-- `d >= coefficient * math.sqrt((n + m) / (n * m))`, for a coefficient in units of 1e-3; the threshold of
-- an empty sample is infinite.
unfoldable pub reaches_threshold : ℕ → ℕ → ℕ → ℕ → Bool
reaches_threshold d n m coefficient =
    ltb 0 n
    && ltb 0 m
    && leb (coefficient * coefficient * ((n + m) * (n * m))) (1_000_000 * (d * d))
