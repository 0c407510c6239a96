-- ===== src/Monitoring/Ks/Skip.antt =====
-- What one inner loop of `ks_statistic` of src/app/monitoring/drift.py leaves of a sorted sample.
use llmops_rag_api.Monitoring.Ks.{skip, List, leb, length, suc}
use llmops_rag_api.Prelude.{
  ℕ, ◌+◌, ◌≤◌, ◌<◌, ◌≡◌, refl, inl, inr, [], ◌∷◌, arith, if◌then◌else◌, All, Bool-cases, le→leb,
  leb→le, All-imp,
}
use llmops_rag_api.Prelude.Sort.{IsSorted}

-- How many values are at most `v`.
unfoldable pub count_le : ℕ → List ℕ → ℕ
count_le v [] = 0
count_le v (x ∷ xs) = (if leb x v then 1 else 0) + count_le v xs

pub count_le-length : (v : ℕ) (xs : List ℕ) → count_le v xs ≤ length xs
unfolding count_le
count_le-length v [] = omega arith
count_le-length v (x ∷ xs) = ground (arith, count_le-length v xs)

-- No value is at most `v` where the first is above it.
pub count_le-none : (v : ℕ) (xs : List ℕ) → All (λ y. v < y) xs → count_le v xs ≡ 0
unfolding count_le
count_le-none v [] h = refl
count_le-none v (x ∷ xs) h = ground (arith, count_le-none v xs)

abbrev pub Sorted : List ℕ → Type 0
Sorted xs = IsSorted (λ v. v) xs

-- The index that the loop reaches, and the values that it leaves.
pub record Skipped (value i : ℕ) (xs : List ℕ) (run : ℕ × List ℕ) : Type 0 where
  pub counted : run.0 + length run.1 ≡ i + length xs
  pub sorted : Sorted run.1
  pub above : All (λ y. value < y) run.1
  pub later : (v : ℕ) → value ≤ v → run.0 + count_le v run.1 ≡ i + count_le v xs

pub skip-Skipped : (value i : ℕ) (xs : List ℕ) → Sorted xs → Skipped value i xs (skip value i xs)
unfolding skip count_le
skip-Skipped value i [] s = record { counted = refl; sorted = tt; above = tt; later = λ v l. refl }
skip-Skipped value i (x ∷ xs) s = elim (Bool-cases (leb x value)) [
  | inl e ↦
      let ih = skip-Skipped value (suc i) xs s.1 in
      let below : x ≤ value = leb→le x value e in
      rw e (record {
        counted = omega (arith, ih.counted);
        sorted = ih.sorted;
        above = ih.above;
        later = λ v l. ground (arith, ih.later v l);
      })
  | inr e ↦
      let over : value < x = ground arith in
      rw e (record {
        counted = refl;
        sorted = s;
        above = (over, All-imp (λ z. x ≤ z) (λ z. value < z) xs (λ z m. omega arith) s.0);
        later = λ v l. refl;
      })
]

pub length-skip : (value i : ℕ) (xs : List ℕ) → length (skip value i xs).1 ≤ length xs
unfolding skip
length-skip value i [] = omega arith
length-skip value i (x ∷ xs) = ground (arith, length-skip value (suc i) xs)

pub skip-shorter :
    (value i x : ℕ) (xs : List ℕ) → x ≤ value → length (skip value i (x ∷ xs)).1 ≤ length xs
unfolding skip
skip-shorter value i x xs l = rw (le→leb x value l) (length-skip value (suc i) xs)
