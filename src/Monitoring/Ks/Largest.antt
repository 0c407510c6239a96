-- ===== src/Monitoring/Ks/Largest.antt =====
-- `ks_statistic` of src/app/monitoring/drift.py is the largest gap between the two distribution
-- functions, over all values.
use llmops_rag_api.Monitoring.Ks.{distance, ks_loop, ℕ, length, skip, leb, sort_by, ks_statistic}
use llmops_rag_api.Monitoring.Ks.Skip.{
  Sorted, count_le, Skipped, count_le-length, count_le-none, skip-Skipped, skip-shorter,
  length-skip,
}
use llmops_rag_api.Prelude.{
  zero, suc, ◌+◌, ◌*◌, ◌≤◌, ◌≡◌, ◌⊎◌, List, [], ◌∷◌, arith, le-mul_right, All, ◌<◌, min, max, refl,
  sym, ap, ◌∙◌, inl, inr, Bool-cases, All-imp, leb→le,
}
use llmops_rag_api.Prelude.Sort.{
  here, done, Picks, Shuffle, there, pick, sort_by-Shuffle, sort_by-IsSorted, length-Shuffle,
}

-- The gap at `v`, with the counts and the values that are left.
abbrev gap_at : ℕ → ℕ → ℕ → ℕ → List ℕ → List ℕ → ℕ → ℕ
gap_at n m i j ra rb v = distance ((i + count_le v ra) * m) ((j + count_le v rb) * n)

-- Every gap is reached, and the number is one of them or the one given.
record Largest (n m i j d : ℕ) (ra rb : List ℕ) (result : ℕ) : Type 0 where
  keeps : d ≤ result
  bounds : (v : ℕ) → gap_at n m i j ra rb v ≤ result
  attained : (result ≡ d) ⊎ ((v : ℕ) × (gap_at n m i j ra rb v ≡ result))

-- One sample is used up: the gap can only shrink from there.
last_gap : (n m j c : ℕ) → j + c ≤ m → distance (n * m) ((j + c) * n) ≤ distance (n * m) (j * n)
last_gap n m j c l =
    let top : (j + c) * n ≤ m * n = le-mul_right (j + c) m n l in
    let grows : j * n ≤ (j + c) * n = le-mul_right j (j + c) n (omega arith) in
    omega (arith, top, grows)

above-count : (v value : ℕ) (xs : List ℕ) → v ≤ value → All (λ y. value < y) xs → count_le v xs ≡ 0
above-count v value xs l h =
    count_le-none v xs (All-imp (λ y. value < y) (λ y. v < y) xs (λ y m. omega arith) h)

Sorted-above : (v x : ℕ) (xs : List ℕ) → v < x → Sorted (x ∷ xs) → count_le v (x ∷ xs) ≡ 0
Sorted-above v x xs l s =
    count_le-none v (x ∷ xs) (l, All-imp (λ y. x ≤ y) (λ y. v < y) xs (λ y m. omega arith) s.0)

module _ (n m i j d result value x y : ℕ) (ra rb : List ℕ) (A B : ℕ × List ℕ) (sa : Sorted (x ∷ ra))
    (sb : Sorted (y ∷ rb)) (lx : value ≤ x) (ly : value ≤ y) (a : Skipped value i (x ∷ ra) A)
    (b : Skipped value j (y ∷ rb) B) where
  -- Up to `value` the gap is the one between the indices.
  gap-before : (v : ℕ) → v ≤ value → gap_at n m A.0 B.0 A.1 B.1 v ≡ distance (A.0 * m) (B.0 * n)
  gap-before v l =
      let none_a : A.0 + count_le v A.1 ≡ A.0 = omega (arith, above-count v value A.1 l a.above) in
      let none_b : B.0 + count_le v B.1 ≡ B.0 = omega (arith, above-count v value B.1 l b.above) in
      ap (λ k. distance (k * m) ((B.0 + count_le v B.1) * n)) none_a
      ∙ ap (λ k. distance (A.0 * m) (k * n)) none_b

  -- From `value` on it is the same before and after the loops.
  gap-after :
      (v : ℕ) → value ≤ v → gap_at n m A.0 B.0 A.1 B.1 v ≡ gap_at n m i j (x ∷ ra) (y ∷ rb) v
  gap-after v l =
      ap (λ k. distance (k * m) ((B.0 + count_le v B.1) * n)) (a.later v l)
      ∙ ap (λ k. distance ((i + count_le v (x ∷ ra)) * m) (k * n)) (b.later v l)

  gap-first : (v : ℕ) → v < value → gap_at n m i j (x ∷ ra) (y ∷ rb) v ≡ distance (i * m) (j * n)
  gap-first v l =
      let none_a : i + count_le v (x ∷ ra) ≡ i =
        omega (arith, Sorted-above v x ra (omega arith) sa) in
      let none_b : j + count_le v (y ∷ rb) ≡ j =
        omega (arith, Sorted-above v y rb (omega arith) sb) in
      ap (λ k. distance (k * m) ((j + count_le v (y ∷ rb)) * n)) none_a
      ∙ ap (λ k. distance (i * m) (k * n)) none_b

  -- The gap at `value` is the one that the round takes.
  gap-now : gap_at n m i j (x ∷ ra) (y ∷ rb) value ≡ distance (A.0 * m) (B.0 * n)
  gap-now = sym (gap-after value (omega arith)) ∙ gap-before value (omega arith)

  step-Largest :
      distance (i * m) (j * n) ≤ d
      → Largest n m A.0 B.0 (max d (distance (A.0 * m) (B.0 * n))) A.1 B.1 result
      → Largest n m i j d (x ∷ ra) (y ∷ rb) result
  step-Largest g ih = record {
    keeps = omega (arith, ih.keeps);
    bounds = λ v. elim (Bool-cases (leb value v)) [
      | inl e ↦ omega (arith, gap-after v (leb→le value v e), ih.bounds v)
      | inr e ↦ omega (arith, gap-first v (ground arith), g, ih.keeps)
    ];
    attained = elim ih.attained [
      | inl e ↦ elim (Bool-cases (leb (distance (A.0 * m) (B.0 * n)) d)) [
        | inl l ↦ inl (omega (arith, e, leb→le (distance (A.0 * m) (B.0 * n)) d l))
        | inr l ↦
            let over : d < distance (A.0 * m) (B.0 * n) = ground arith in
            inr (value, omega (arith, gap-now, e, over))
      ]
      | inr (v, e) ↦ elim (Bool-cases (leb value v)) [
        | inl l ↦ inr (v, sym (gap-after v (leb→le value v l)) ∙ e)
        | inr l ↦ inr (value, gap-now ∙ sym (gap-before v (ground arith)) ∙ e)
      ]
    ];
  }

left_done :
    (n m i j d : ℕ) (rb : List ℕ)
    → i + 0 ≡ n
    → j + length rb ≡ m
    → distance (i * m) (j * n) ≤ d
    → Largest n m i j d [] rb d
unfolding count_le
left_done n m i j d rb a b g =
    let full : i ≡ n = omega arith in
    let start : distance (n * m) (j * n) ≤ d = rw full at g in
    record {
      keeps = omega arith;
      bounds = λ v. omega (
        arith,
        start,
        last_gap n m j (count_le v rb) (omega (arith, count_le-length v rb)),
        ap (λ k. distance (k * m) ((j + count_le v rb) * n)) a,
      );
      attained = inl refl;
    }

right_done :
    (n m i j d : ℕ) (ra : List ℕ)
    → i + length ra ≡ n
    → j + 0 ≡ m
    → distance (i * m) (j * n) ≤ d
    → Largest n m i j d ra [] d
unfolding count_le
right_done n m i j d ra a b g =
    let full : j ≡ m = omega arith in
    let start : distance (i * m) (m * n) ≤ d = rw full at g in
    record {
      keeps = omega arith;
      bounds = λ v. omega (
        arith,
        start,
        last_gap m n i (count_le v ra) (omega (arith, count_le-length v ra)),
        ap (λ k. distance ((i + count_le v ra) * m) (k * n)) b,
      );
      attained = inl refl;
    }

shorter :
    (x y i j : ℕ) (ra rb : List ℕ)
    → length (skip (min x y) i (x ∷ ra)).1 + length (skip (min x y) j (y ∷ rb)).1
      ≤ suc (length ra + length rb)
shorter x y i j ra rb = elim (Bool-cases (leb x y)) [
  | inl e ↦
      (let low : min x y ≡ x = ground arith in
        ground
          (arith, skip-shorter (min x y) i x ra (omega arith), length-skip (min x y) j (y ∷ rb)))
  | inr e ↦
      ground (arith, skip-shorter (min x y) j y rb (ground arith), length-skip (min x y) i (x ∷ ra))
]

ks_loop-Largest :
    (fuel n m i j d : ℕ) (ra rb : List ℕ)
    → length ra + length rb ≤ fuel
    → i + length ra ≡ n
    → j + length rb ≡ m
    → Sorted ra
    → Sorted rb
    → distance (i * m) (j * n) ≤ d
    → Largest n m i j d ra rb (ks_loop fuel n m i j d ra rb)
unfolding ks_loop
ks_loop-Largest zero n m i j d [] rb f a b sa sb g = left_done n m i j d rb a b g
ks_loop-Largest zero n m i j d (x ∷ ra) rb f a b sa sb g = absurd (omega arith)
ks_loop-Largest (suc fuel) n m i j d [] rb f a b sa sb g = left_done n m i j d rb a b g
ks_loop-Largest (suc fuel) n m i j d (x ∷ ra) [] f a b sa sb g = right_done n m i j d (x ∷ ra) a b g
ks_loop-Largest (suc fuel) n m i j d (x ∷ ra) (y ∷ rb) f a b sa sb g =
    let A = skip (min x y) i (x ∷ ra) in
    let B = skip (min x y) j (y ∷ rb) in
    let skipped_a = skip-Skipped (min x y) i (x ∷ ra) sa in
    let skipped_b = skip-Skipped (min x y) j (y ∷ rb) sb in
    let d' = max d (distance (A.0 * m) (B.0 * n)) in
    step-Largest n m i j d (ks_loop fuel n m A.0 B.0 d' A.1 B.1) (min x y) x y ra rb A B sa sb
      (omega arith) (omega arith) skipped_a skipped_b g
      (ks_loop-Largest fuel n m A.0 B.0 d' A.1 B.1 (omega (arith, shorter x y i j ra rb))
        (omega (arith, skipped_a.counted)) (omega (arith, skipped_b.counted)) skipped_a.sorted
        skipped_b.sorted (omega arith))

count_le-Picks : (v : ℕ) {x : ℕ} {d r : List ℕ} → Picks x d r → count_le v d ≡ count_le v (x ∷ r)
unfolding count_le
count_le-Picks v here = refl
count_le-Picks v (there p) = omega (arith, count_le-Picks v p)

count_le-Shuffle : (v : ℕ) {d s : List ℕ} → Shuffle d s → count_le v d ≡ count_le v s
unfolding count_le
count_le-Shuffle v done = refl
count_le-Shuffle v (pick p q) = omega (arith, count_le-Picks v p, count_le-Shuffle v q)

-- The gap between the two distribution functions at `v`, in units of 1 / (length a * length b).
abbrev pub gap : List ℕ → List ℕ → ℕ → ℕ
gap a b v = distance (count_le v a * length b) (count_le v b * length a)

length_sorted : (xs : List ℕ) → length (sort_by (λ w. w) xs) ≡ length xs
length_sorted xs = sym (length-Shuffle (sort_by-Shuffle (λ w. w) xs))

sorted_gap :
    (a b : List ℕ) (v : ℕ)
    → gap_at (length a) (length b) 0 0 (sort_by (λ w. w) a) (sort_by (λ w. w) b) v ≡ gap a b v
sorted_gap a b v =
    let left : 0 + count_le v (sort_by (λ w. w) a) ≡ count_le v a =
      omega (arith, count_le-Shuffle v (sort_by-Shuffle (λ w. w) a)) in
    let right : 0 + count_le v (sort_by (λ w. w) b) ≡ count_le v b =
      omega (arith, count_le-Shuffle v (sort_by-Shuffle (λ w. w) b)) in
    ap (λ k. distance (k * length b) ((0 + count_le v (sort_by (λ w. w) b)) * length a)) left
    ∙ ap (λ k. distance (count_le v a * length b) (k * length a)) right

from_run :
    (a b : List ℕ) (result : ℕ)
    → Largest (length a) (length b) 0 0 0 (sort_by (λ w. w) a) (sort_by (λ w. w) b) result
    → ((v : ℕ) → gap a b v ≤ result) × ((v : ℕ) × (gap a b v ≡ result))
from_run a b result run =
    let bound : (v : ℕ) → gap a b v ≤ result = λ v. omega (arith, sorted_gap a b v, run.bounds v) in
    (
      bound,
      elim run.attained [
        | inl e ↦ (0, omega (arith, bound 0, e))
        | inr (v, e) ↦ (v, sym (sorted_gap a b v) ∙ e)
      ],
    )

-- The statistic that the two indices compute is the supremum that defines it: the gap between the two
-- distribution functions is at most the statistic at every value, and equal to it at some value.
pub ks_statistic-largest :
    (a b : List ℕ)
    → ((v : ℕ) → gap a b v ≤ ks_statistic a b) × ((v : ℕ) × (gap a b v ≡ ks_statistic a b))
unfolding ks_statistic count_le
ks_statistic-largest [] b = ((λ v. omega arith), (0, omega arith))
ks_statistic-largest (x ∷ a) [] = ((λ v. omega arith), (0, omega arith))
ks_statistic-largest (x ∷ a) (y ∷ b) =
    let sa = sort_by (λ w. w) (x ∷ a) in
    let sb = sort_by (λ w. w) (y ∷ b) in
    let la = length_sorted (x ∷ a) in
    let lb = length_sorted (y ∷ b) in
    from_run (x ∷ a) (y ∷ b)
      (ks_loop (length (x ∷ a) + length (y ∷ b)) (length (x ∷ a)) (length (y ∷ b)) 0 0 0 sa sb)
      (ks_loop-Largest (length (x ∷ a) + length (y ∷ b)) (length (x ∷ a)) (length (y ∷ b)) 0 0 0 sa
        sb (omega (arith, la, lb)) (omega (arith, la)) (omega (arith, lb))
        (sort_by-IsSorted (λ w. w) (x ∷ a)) (sort_by-IsSorted (λ w. w) (y ∷ b)) (omega arith))
