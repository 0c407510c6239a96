-- ===== src/Prelude/Sort.antt =====
-- Python's `sorted(xs, key=f)`: a stable insertion sort by a number, with what every user needs of
-- it: the result is a rearrangement, in order.
use Prim.Native.Nat.{ℕ, zero, suc, ◌≤◌}
use mathlib.Core.Path.{◌≡◌, refl, ap}
use mathlib.Core.Logic.{inl, inr}
use mathlib.Core.List.{List, [], ◌∷◌}
use native.Mathlib.Omega.{arith}
use llmops_rag_api.Prelude.Tests.{leb, if◌then◌else◌, Bool-cases, leb→le}
use llmops_rag_api.Prelude.Lists.{length, take, drop, All, All-imp}

module _ {A : Type 0} where
  -- `Picks x d r`: taking one `x` out of `d` leaves `r`.
  pub data Picks (x : A) : List A → List A → Type 0 where
    here : {r : List A} → Picks x (x ∷ r) r
    there : {y : A} {d r : List A} → Picks x d r → Picks x (y ∷ d) (y ∷ r)

  pub data Shuffle : List A → List A → Type 0 where
    done : Shuffle [] []
    pick : {x : A} {d r s : List A} → Picks x d r → Shuffle r s → Shuffle d (x ∷ s)

  pub length-Picks : {x : A} {d r : List A} → Picks x d r → length d ≡ suc (length r)
  length-Picks here = refl
  length-Picks (there p) = ap suc (length-Picks p)

  pub length-Shuffle : {d s : List A} → Shuffle d s → length d ≡ length s
  length-Shuffle done = refl
  length-Shuffle (pick p q) = omega (arith, length-Picks p, length-Shuffle q)

  pub Shuffle-refl : (d : List A) → Shuffle d d
  Shuffle-refl [] = done
  Shuffle-refl (x ∷ d) = pick here (Shuffle-refl d)

  pub All-Picks {κ} :
      (P : A → Type κ) {x : A} {d r : List A} → Picks x d r → P x → All P r → All P d
  All-Picks P here px h = (px, h)
  All-Picks P (there p) px h = (h.0, All-Picks P p px h.1)

  pub All-Shuffle {κ} : (P : A → Type κ) {d s : List A} → Shuffle d s → All P s → All P d
  All-Shuffle P done h = tt
  All-Shuffle P (pick p q) h = All-Picks P p h.0 (All-Shuffle P q h.1)

module _ {A : Type 0} (key : A → ℕ) where
  unfoldable pub insert_by : A → List A → List A
  insert_by x [] = x ∷ []
  insert_by x (y ∷ ys) =
      let rest = insert_by x ys in if leb (key x) (key y) then x ∷ y ∷ ys else y ∷ rest

  unfoldable pub sort_by : List A → List A
  unfolding insert_by
  sort_by [] = []
  sort_by (x ∷ xs) = insert_by x (sort_by xs)

  -- Each item is at most every later one.
  abbrev pub IsSorted : List A → Type 0
  IsSorted [] = Unit
  IsSorted (x ∷ xs) = All (λ y. key x ≤ key y) xs × IsSorted xs

  insert_by-Shuffle : (x : A) (d s : List A) → Shuffle d s → Shuffle (x ∷ d) (insert_by x s)
  unfolding insert_by
  insert_by-Shuffle x d [] p = pick here p
  insert_by-Shuffle x d (y ∷ s) (pick {r = r} p q) = elim (Bool-cases (leb (key x) (key y))) [
    | inl e ↦ rw e (pick here (pick p q))
    | inr e ↦ rw e (pick (there p) (insert_by-Shuffle x r s q))
  ]

  pub sort_by-Shuffle : (d : List A) → Shuffle d (sort_by d)
  unfolding sort_by
  sort_by-Shuffle [] = done
  sort_by-Shuffle (x ∷ d) = insert_by-Shuffle x d (sort_by d) (sort_by-Shuffle d)

  insert_by-All :
      (n : ℕ) (x : A) (s : List A)
      → n ≤ key x
      → All (λ y. n ≤ key y) s
      → All (λ y. n ≤ key y) (insert_by x s)
  unfolding insert_by
  insert_by-All n x [] l h = (l, tt)
  insert_by-All n x (y ∷ s) l h = elim (Bool-cases (leb (key x) (key y))) [
    | inl e ↦ rw e (l, h)
    | inr e ↦ rw e (h.0, insert_by-All n x s l h.1)
  ]

  insert_by-IsSorted : (x : A) (s : List A) → IsSorted s → IsSorted (insert_by x s)
  unfolding insert_by
  insert_by-IsSorted x [] h = (tt, tt)
  insert_by-IsSorted x (y ∷ s) h = elim (Bool-cases (leb (key x) (key y))) [
    | inl e ↦
        let l = leb→le (key x) (key y) e in
        rw e ((l, All-imp (λ z. key y ≤ key z) (λ z. key x ≤ key z) s (λ z m. omega arith) h.0), h)
    | inr e ↦ rw e (insert_by-All (key y) x s (ground arith) h.0, insert_by-IsSorted x s h.1)
  ]

  pub sort_by-IsSorted : (d : List A) → IsSorted (sort_by d)
  unfolding sort_by
  sort_by-IsSorted [] = tt
  sort_by-IsSorted (x ∷ d) = insert_by-IsSorted x (sort_by d) (sort_by-IsSorted d)

  All-drop {κ} : (P : A → Type κ) (n : ℕ) (s : List A) → All P s → All P (drop n s)
  All-drop P zero s h = h
  All-drop P (suc n) [] h = tt
  All-drop P (suc n) (x ∷ s) h = All-drop P n s h.1

  -- A cut of a sorted list: the first part is at most the second.
  pub IsSorted-cut :
      (n : ℕ) (s : List A) → IsSorted s → All (λ x. All (λ y. key x ≤ key y) (drop n s)) (take n s)
  IsSorted-cut zero s h = tt
  IsSorted-cut (suc n) [] h = tt
  IsSorted-cut (suc n) (x ∷ s) h = (All-drop (λ y. key x ≤ key y) n s h.0, IsSorted-cut n s h.1)
