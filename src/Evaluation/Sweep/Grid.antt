-- ===== src/Evaluation/Sweep/Grid.antt =====
-- The points of `build_grid` of src/app/evaluation/sweep.py.
use llmops_rag_api.Prelude.{
  ℕ, ◌<◌, ◌≡◌, ◌↔◌, refl, List, [], ◌∷◌, ◌++◌, In, inl, inr, map, leb, Bool-cases, arith, ap, ◌∙◌,
  ◌⊎◌, In-append_left, leb→le, In-append_right,
}
use llmops_rag_api.Prelude.Newest.{concat}
use llmops_rag_api.Evaluation.Sweep.{SweepPoint, build_grid, floor_points}

In-append : {A : Type 0} (x : A) (xs ys : List A) → In x (xs ++ ys) → In x xs ⊎ In x ys
In-append x [] ys i = inr i
In-append x (y ∷ xs) ys (inl e) = inl (inl e)
In-append x (y ∷ xs) ys (inr i) = elim (In-append x xs ys i) [ inl j ↦ inl (inr j) | inr j ↦ inr j ]

module _ {A B : Type 0} (f : A → List B) where
  -- A loop inside a loop.
  In-concat : (b : B) (xs : List A) → In b (concat (map f xs)) ↔ ((a : A) × In a xs × In b (f a))
  unfolding concat
  In-concat b [] = ((λ i. absurd i), (λ p. absurd p.1))
  In-concat b (x ∷ xs) = (
    (λ i. elim (In-append b (f x) (concat (map f xs)) i) [
      | inl j ↦ (x, inl refl, j)
      | inr j ↦ let (a, k, m) = (In-concat b xs).0 j in (a, inr k, m)
    ]),
    (λ p. back (In-concat b xs).1 p.0 p.1 p.2),
  )
    where
      back :
          (((a : A) × In a xs × In b (f a)) → In b (concat (map f xs)))
          → (a : A) → In a (x ∷ xs)
          → In b (f a)
          → In b (f x ++ concat (map f xs))
      back rest a (inl e) m = In-append_left b (f x) (concat (map f xs)) (rw e at m)
      back rest a (inr k) m = In-append_right b (f x) (concat (map f xs)) (rest (a, k, m))

abbrev point_of : ℕ → ℕ → ℕ → ℕ → SweepPoint
point_of size overlap k floor = record {
  chunk_size = size;
  chunk_overlap = overlap;
  top_k = k;
  min_similarity = floor;
}

In-floor_points :
    (size overlap k : ℕ) (floors : List ℕ) (p : SweepPoint)
    → In p (floor_points size overlap k floors)
      ↔ ((overlap < size) × ((f : ℕ) × In f floors × (p ≡ point_of size overlap k f)))
unfolding floor_points
In-floor_points size overlap k [] p = ((λ i. absurd i), (λ h. absurd h.1.1))
In-floor_points size overlap k (f ∷ floors) p = elim (Bool-cases (leb size overlap)) [
  | inl e ↦
      let rest = In-floor_points size overlap k floors p in
      rw e (
        (λ i. (let h = rest.0 i in absurd (omega (arith, h.0, leb→le size overlap e)))),
        (λ h. absurd (omega (arith, h.0, leb→le size overlap e))),
      )
  | inr e ↦
      let rest = In-floor_points size overlap k floors p in
      let below : overlap < size = ground arith in
      rw e ((λ i. forth rest.0 below i), (λ h. back rest.1 h))
]
  where
    Rest : Type 0
    Rest = (overlap < size) × ((g : ℕ) × In g floors × (p ≡ point_of size overlap k g))

    forth :
        (In p (floor_points size overlap k floors) → Rest)
        → overlap < size
        → In p (point_of size overlap k f ∷ floor_points size overlap k floors)
        → (overlap < size) × ((g : ℕ) × In g (f ∷ floors) × (p ≡ point_of size overlap k g))
    forth rest l (inl e) = (l, (f, inl refl, e))
    forth rest l (inr i) = let (m, (g, j, e)) = rest i in (m, (g, inr j, e))

    back :
        (Rest → In p (floor_points size overlap k floors))
        → (overlap < size) × ((g : ℕ) × In g (f ∷ floors) × (p ≡ point_of size overlap k g))
        → In p (point_of size overlap k f ∷ floor_points size overlap k floors)
    back rest (l, (g, inl j, e)) = inl (e ∙ ap (point_of size overlap k) j)
    back rest (l, (g, inr j, e)) = inr (rest (l, (g, j, e)))

-- The value of each parameter is one of those given for it, and the overlap is below the size.
abbrev pub InGrid : List ℕ → List ℕ → List ℕ → List ℕ → SweepPoint → Type 0
InGrid sizes overlaps ks floors p =
    In p.chunk_size sizes
    × In p.chunk_overlap overlaps
    × In p.top_k ks
    × In p.min_similarity floors
    × (p.chunk_overlap < p.chunk_size)

pub build_grid-InGrid :
    (sizes overlaps ks floors : List ℕ) (p : SweepPoint)
    → In p (build_grid sizes overlaps ks floors) ↔ InGrid sizes overlaps ks floors p
unfolding build_grid
build_grid-InGrid sizes overlaps ks floors p = (forth, back)
  where
    at_overlap : ℕ → ℕ → List SweepPoint
    at_overlap size overlap = concat (map (λ k. floor_points size overlap k floors) ks)

    at_size : ℕ → List SweepPoint
    at_size size = concat (map (at_overlap size) overlaps)

    forth : In p (build_grid sizes overlaps ks floors) → InGrid sizes overlaps ks floors p
    forth i =
        let (size, i1, j1) = (In-concat at_size p sizes).0 i in
        let (overlap, i2, j2) = (In-concat (at_overlap size) p overlaps).0 j1 in
        let (k, i3, j3) = (In-concat (λ k. floor_points size overlap k floors) p ks).0 j2 in
        let (below, (f, i4, e)) = (In-floor_points size overlap k floors p).0 j3 in
        rw e (i1, i2, i3, i4, below)

    back : InGrid sizes overlaps ks floors p → In p (build_grid sizes overlaps ks floors)
    back (i1, i2, i3, i4, below) =
        let size = p.chunk_size in
        let overlap = p.chunk_overlap in
        let row =
          (In-floor_points size overlap p.top_k floors p).1 (below, (p.min_similarity, i4, refl)) in
        (In-concat at_size p sizes).1 (
          size,
          i1,
          (In-concat (at_overlap size) p overlaps).1 (
            overlap,
            i2,
            (In-concat (λ k. floor_points size overlap k floors) p ks).1 (p.top_k, i3, row),
          ),
        )
