-- ===== src/Prelude/Newest.antt =====
-- Python's `sorted(xs, key=f, reverse=True)`: the largest first, and equal ones in the order that they had.
-- The first n of it come from the first n of each part that is in order already.
use Prim.Native.Nat.{ℕ, zero, suc, ◌≤◌}
use mathlib.Core.Path.{◌≡◌, refl, ap, sym, ◌∙◌}
use mathlib.Core.Logic.{inl, inr}
use mathlib.Core.List.{map, List, [], ◌∷◌, ◌++◌, append_assoc}
use native.Mathlib.Omega.{arith}
use llmops_rag_api.Prelude.Tests.{leb, if◌then◌else◌, Bool-cases, leb→le, le→leb}
use llmops_rag_api.Prelude.Sort.{Shuffle, done, pick, here, there}
use llmops_rag_api.Prelude.Lists.{
  length, take, drop, All, All-imp, take_all, length-take, take-append-drop,
}

module _ {A : Type 0} where
  unfoldable pub concat : List (List A) → List A
  concat [] = []
  concat (xs ∷ xss) = xs ++ concat xss

module _ {A : Type 0} (key : A → ℕ) where
  unfoldable pub insert_newest : A → List A → List A
  insert_newest x [] = x ∷ []
  insert_newest x (y ∷ ys) =
      let rest = insert_newest x ys in if leb (key y) (key x) then x ∷ y ∷ ys else y ∷ rest

  unfoldable pub sort_newest : List A → List A
  unfolding insert_newest
  sort_newest [] = []
  sort_newest (x ∷ xs) = insert_newest x (sort_newest xs)

  abbrev pub IsNewestFirst : List A → Type 0
  IsNewestFirst [] = Unit
  IsNewestFirst (x ∷ xs) = All (λ y. key y ≤ key x) xs × IsNewestFirst xs

  insert_newest-All :
      (n : ℕ) (x : A) (s : List A)
      → key x ≤ n
      → All (λ y. key y ≤ n) s
      → All (λ y. key y ≤ n) (insert_newest x s)
  unfolding insert_newest
  insert_newest-All n x [] l h = (l, tt)
  insert_newest-All n x (y ∷ s) l h = elim (Bool-cases (leb (key y) (key x))) [
    | inl e ↦ rw e (l, h)
    | inr e ↦ rw e (h.0, insert_newest-All n x s l h.1)
  ]

  insert_newest-IsNewestFirst :
      (x : A) (s : List A) → IsNewestFirst s → IsNewestFirst (insert_newest x s)
  unfolding insert_newest
  insert_newest-IsNewestFirst x [] h = (tt, tt)
  insert_newest-IsNewestFirst x (y ∷ s) h = elim (Bool-cases (leb (key y) (key x))) [
    | inl e ↦
        let l = leb→le (key y) (key x) e in
        rw e ((l, All-imp (λ z. key z ≤ key y) (λ z. key z ≤ key x) s (λ z m. omega arith) h.0), h)
    | inr e ↦
        rw e (insert_newest-All (key y) x s (ground arith) h.0, insert_newest-IsNewestFirst x s h.1)
  ]

  pub sort_newest-IsNewestFirst : (d : List A) → IsNewestFirst (sort_newest d)
  unfolding sort_newest
  sort_newest-IsNewestFirst [] = tt
  sort_newest-IsNewestFirst (x ∷ d) =
      insert_newest-IsNewestFirst x (sort_newest d) (sort_newest-IsNewestFirst d)

  insert_newest-Shuffle : (x : A) (d s : List A) → Shuffle d s → Shuffle (x ∷ d) (insert_newest x s)
  unfolding insert_newest
  insert_newest-Shuffle x d [] p = pick here p
  insert_newest-Shuffle x d (y ∷ s) (pick {r = r} p q) = elim (Bool-cases (leb (key y) (key x))) [
    | inl e ↦ rw e (pick here (pick p q))
    | inr e ↦ rw e (pick (there p) (insert_newest-Shuffle x r s q))
  ]

  pub sort_newest-Shuffle : (d : List A) → Shuffle d (sort_newest d)
  unfolding sort_newest
  sort_newest-Shuffle [] = done
  sort_newest-Shuffle (x ∷ d) = insert_newest-Shuffle x d (sort_newest d) (sort_newest-Shuffle d)

  All-insert_newest {κ} :
      (P : A → Type κ) (x : A) (s : List A) → P x → All P s → All P (insert_newest x s)
  unfolding insert_newest
  All-insert_newest P x [] px h = (px, h)
  All-insert_newest P x (y ∷ s) px h = elim (Bool-cases (leb (key y) (key x))) [
    | inl e ↦ rw e (px, h)
    | inr e ↦ rw e (h.0, All-insert_newest P x s px h.1)
  ]

  pub All-sort_newest {κ} : (P : A → Type κ) (s : List A) → All P s → All P (sort_newest s)
  unfolding sort_newest
  All-sort_newest P [] h = h
  All-sort_newest P (x ∷ s) h = All-insert_newest P x (sort_newest s) h.0 (All-sort_newest P s h.1)

  -- The second list is the first without one `y`, which stands behind `k` others and before none above it.
  data Beyond (y : A) : ℕ → List A → List A → Type 0 where
    at : {q : List A} → All (λ z. key z ≤ key y) q → Beyond y 0 (y ∷ q) q
    behind : {k : ℕ} {x : A} {l r : List A} → Beyond y k l r → Beyond y (suc k) (x ∷ l) (x ∷ r)

  Beyond-take : (n k : ℕ) {y : A} {l r : List A} → n ≤ k → Beyond y k l r → take n l ≡ take n r
  Beyond-take zero k h b = refl
  Beyond-take (suc n) zero h b = absurd (omega arith)
  Beyond-take (suc n) (suc k) h (behind {x = x} b) =
      ap (λ t. x ∷ t) (Beyond-take n k (omega arith) b)

  insert_newest-Beyond :
      (x y : A) {k : ℕ} {l r : List A}
      → key y ≤ key x
      → Beyond y k l r
      → Beyond y (suc k) (insert_newest x l) (insert_newest x r)
  unfolding insert_newest
  insert_newest-Beyond x y h (at {q = []} a) = rw (le→leb (key y) (key x) h) (behind (at tt))
  insert_newest-Beyond x y h (at {q = z ∷ q} a) =
      let next : key z ≤ key x = omega (arith, a.0, h) in
      rw (le→leb (key y) (key x) h) (rw (le→leb (key z) (key x) next) (behind (at a)))
  insert_newest-Beyond x y h (behind {x = z} b) = elim (Bool-cases (leb (key z) (key x))) [
    | inl e ↦ rw e (behind (behind b))
    | inr e ↦ rw e (behind (insert_newest-Beyond x y h b))
  ]

  insert_own-Beyond :
      (y : A) (s : List A) → IsNewestFirst s → (k : ℕ) × Beyond y k (insert_newest y s) s
  unfolding insert_newest
  insert_own-Beyond y [] h = (0, at tt)
  insert_own-Beyond y (z ∷ s) h = elim (Bool-cases (leb (key z) (key y))) [
    | inl e ↦
        let l = leb→le (key z) (key y) e in
        rw e
          (0, at (l, All-imp (λ w. key w ≤ key z) (λ w. key w ≤ key y) s (λ w m. omega arith) h.0))
    | inr e ↦ let (k, b) = insert_own-Beyond y s h.1 in rw e (suc k, behind b)
  ]

  sort_newest-Beyond :
      (y : A) (xs r : List A)
      → All (λ x. key y ≤ key x) xs
      → (k : ℕ) × (length xs ≤ k) × Beyond y k (sort_newest (xs ++ (y ∷ r))) (sort_newest (xs ++ r))
  unfolding sort_newest
  sort_newest-Beyond y [] r h =
      let (k, b) = insert_own-Beyond y (sort_newest r) (sort_newest-IsNewestFirst r) in
      (k, omega arith, b)
  sort_newest-Beyond y (x ∷ xs) r h =
      let (k, l, b) = sort_newest-Beyond y xs r h.1 in
      (suc k, omega (arith, l), insert_newest-Beyond x y h.0 b)

  -- The first `n` of the sorted list.
  unfoldable pub newest : ℕ → List A → List A
  unfolding sort_newest
  newest n xs = take n (sort_newest xs)

  -- An item with `n` others before it that are not below it does not count.
  newest-skip :
      (n : ℕ) (y : A) (xs r : List A)
      → n ≤ length xs
      → All (λ x. key y ≤ key x) xs
      → newest n (xs ++ (y ∷ r)) ≡ newest n (xs ++ r)
  unfolding newest
  newest-skip n y xs r l h =
      let (k, m, b) = sort_newest-Beyond y xs r h in Beyond-take n k (omega (arith, m)) b

  newest-skip_each :
      (n : ℕ) (xs ys r : List A)
      → n ≤ length xs
      → All (λ y. All (λ x. key y ≤ key x) xs) ys
      → newest n (xs ++ (ys ++ r)) ≡ newest n (xs ++ r)
  newest-skip_each n xs [] r l h = refl
  newest-skip_each n xs (y ∷ ys) r l h =
      newest-skip n y xs (ys ++ r) l h.0 ∙ newest-skip_each n xs ys r l h.1

  All-below :
      (x : A) (n : ℕ) (ys : List A)
      → All (λ y. key y ≤ key x) ys
      → All (λ y. All (λ z. key y ≤ key z) (take n ys)) (drop n ys)
      → All (λ y. All (λ z. key y ≤ key z) (x ∷ take n ys)) (drop n ys)
  All-below x n ys h k = both (drop n ys) (take n ys) (All-drop n ys h) k
    where
      both :
          (ds ts : List A)
          → All (λ y. key y ≤ key x) ds
          → All (λ y. All (λ z. key y ≤ key z) ts) ds
          → All (λ y. All (λ z. key y ≤ key z) (x ∷ ts)) ds
      both [] ts h k = tt
      both (d ∷ ds) ts h k = ((h.0, k.0), both ds ts h.1 k.1)

      All-drop :
          (n : ℕ) (s : List A) → All (λ y. key y ≤ key x) s → All (λ y. key y ≤ key x) (drop n s)
      All-drop zero s h = h
      All-drop (suc n) [] h = tt
      All-drop (suc n) (y ∷ s) h = All-drop n s h.1

  pub IsNewestFirst-cut :
      (n : ℕ) (s : List A)
      → IsNewestFirst s
      → All (λ y. All (λ x. key y ≤ key x) (take n s)) (drop n s)
  IsNewestFirst-cut zero s h = nothing s
    where
      nothing : (s : List A) → All (λ y. All (λ x. key y ≤ key x) []) s
      nothing [] = tt
      nothing (y ∷ s) = (tt, nothing s)
  IsNewestFirst-cut (suc n) [] h = tt
  IsNewestFirst-cut (suc n) (x ∷ s) h = All-below x n s h.0 (IsNewestFirst-cut n s h.1)

  -- Of a part in order, only the first `n` can count.
  newest-take :
      (n : ℕ) (s r : List A) → IsNewestFirst s → newest n (s ++ r) ≡ newest n (take n s ++ r)
  newest-take n s r h = elim (Bool-cases (leb (length s) n)) [
    | inl e ↦ rw (take_all n s (leb→le (length s) n e)) refl
    | inr e ↦
        let full : n ≤ length (take n s) = ground (arith, length-take n s) in
        let split : s ++ r ≡ take n s ++ (drop n s ++ r) =
          ap (λ t. t ++ r) (sym (take-append-drop n s)) ∙ append_assoc (take n s) (drop n s) r in
        ap (newest n) split
        ∙ newest-skip_each n (take n s) (drop n s) r full (IsNewestFirst-cut n s h)
  ]

  take_cons : (n : ℕ) (y : A) (l r : List A) → take n l ≡ take n r → take n (y ∷ l) ≡ take n (y ∷ r)
  take_cons zero y l r e = refl
  take_cons (suc n) y l r e = ap (λ t. y ∷ t) (take_less n l r e)
    where
      take_less : (n : ℕ) (l r : List A) → take (suc n) l ≡ take (suc n) r → take n l ≡ take n r
      take_less zero l r e = refl
      take_less (suc n) [] [] e = refl
      take_less (suc n) [] (z ∷ r) e = absurd (cc e)
      take_less (suc n) (y ∷ l) [] e = absurd (cc e)
      take_less (suc n) (y ∷ l) (z ∷ r) e =
          let first : y ≡ z = cc e in
          let later : take (suc n) l ≡ take (suc n) r = cc e in
          rw (← first) (ap (λ t. y ∷ t) (take_less n l r later))

  insert_newest-take :
      (n : ℕ) (x : A) (l r : List A)
      → take n l ≡ take n r
      → take n (insert_newest x l) ≡ take n (insert_newest x r)
  unfolding insert_newest
  insert_newest-take zero x l r e = refl
  insert_newest-take (suc n) x [] [] e = refl
  insert_newest-take (suc n) x [] (z ∷ r) e = absurd (cc e)
  insert_newest-take (suc n) x (y ∷ l) [] e = absurd (cc e)
  insert_newest-take (suc n) x (y ∷ l) (z ∷ r) e =
      let first : y ≡ z = cc e in
      let later : take n l ≡ take n r = cc e in
      rw (← first) (elim (Bool-cases (leb (key y) (key x))) [
        | inl f ↦ rw f (ap (λ t. x ∷ t) (take_cons n y l r later))
        | inr f ↦ rw f (ap (λ t. y ∷ t) (insert_newest-take n x l r later))
      ])

  newest-cong :
      (n : ℕ) (s l r : List A) → newest n l ≡ newest n r → newest n (s ++ l) ≡ newest n (s ++ r)
  unfolding newest
  newest-cong n [] l r e = e
  newest-cong n (x ∷ s) l r e =
      insert_newest-take n x (sort_newest (s ++ l)) (sort_newest (s ++ r)) (newest-cong n s l r e)

  -- The first `n` of all are the first `n` of the first `n` of each part, if each part is in order.
  pub newest-concat :
      (n : ℕ) (parts : List (List A))
      → All IsNewestFirst parts
      → newest n (concat (map (take n) parts)) ≡ newest n (concat parts)
  unfolding concat
  newest-concat n [] h = refl
  newest-concat n (s ∷ parts) h =
      newest-cong n (take n s) (concat (map (take n) parts)) (concat parts)
        (newest-concat n parts h.1)
      ∙ sym (newest-take n s (concat parts) h.0)
