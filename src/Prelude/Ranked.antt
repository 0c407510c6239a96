-- ===== src/Prelude/Ranked.antt =====
-- Python's `xs.sort(key=f, reverse=True)` for a key that is compared by `le`: the largest first, and equal ones in the
-- order that they had.
use mathlib.Core.Path.{◌≡◌}
use mathlib.Core.Bool.{Bool, true, false}
use mathlib.Core.Logic.{inl, inr}
use mathlib.Core.List.{List, [], ◌∷◌}
use llmops_rag_api.Prelude.Tests.{if◌then◌else◌, Bool-cases}
use llmops_rag_api.Prelude.Lists.{All, All-imp}
use llmops_rag_api.Prelude.Sort.{here, there, Shuffle, done, pick}

module _ {A : Type 0} (le : A → A → Bool) where
  unfoldable pub insert_ranked : A → List A → List A
  insert_ranked x [] = x ∷ []
  insert_ranked x (y ∷ ys) =
      let rest = insert_ranked x ys in if le y x then x ∷ y ∷ ys else y ∷ rest

  unfoldable pub sort_ranked : List A → List A
  unfolding insert_ranked
  sort_ranked [] = []
  sort_ranked (x ∷ xs) = insert_ranked x (sort_ranked xs)

  -- No item is below a later one.
  abbrev pub IsRanked : List A → Type 0
  IsRanked [] = Unit
  IsRanked (x ∷ xs) = All (λ y. le y x ≡ true) xs × IsRanked xs

  insert_ranked-Shuffle : (x : A) (d s : List A) → Shuffle d s → Shuffle (x ∷ d) (insert_ranked x s)
  unfolding insert_ranked
  insert_ranked-Shuffle x d [] p = pick here p
  insert_ranked-Shuffle x d (y ∷ s) (pick {r = r} k p) = elim (Bool-cases (le y x)) [
    | inl e ↦ rw e (pick here (pick k p))
    | inr e ↦ rw e (pick (there k) (insert_ranked-Shuffle x r s p))
  ]

  pub sort_ranked-Shuffle : (d : List A) → Shuffle d (sort_ranked d)
  unfolding sort_ranked
  sort_ranked-Shuffle [] = done
  sort_ranked-Shuffle (x ∷ d) = insert_ranked-Shuffle x d (sort_ranked d) (sort_ranked-Shuffle d)

  module _ (total : (a b : A) → le a b ≡ false → le b a ≡ true)
      (trans : (a b c : A) → le a b ≡ true → le b c ≡ true → le a c ≡ true) where
    insert_ranked-All :
        (z x : A) (s : List A)
        → le x z ≡ true
        → All (λ y. le y z ≡ true) s
        → All (λ y. le y z ≡ true) (insert_ranked x s)
    unfolding insert_ranked
    insert_ranked-All z x [] l h = (l, tt)
    insert_ranked-All z x (y ∷ s) l h = elim (Bool-cases (le y x)) [
      | inl e ↦ rw e (l, h)
      | inr e ↦ rw e (h.0, insert_ranked-All z x s l h.1)
    ]

    insert_ranked-IsRanked : (x : A) (s : List A) → IsRanked s → IsRanked (insert_ranked x s)
    unfolding insert_ranked
    insert_ranked-IsRanked x [] h = (tt, tt)
    insert_ranked-IsRanked x (y ∷ s) h = elim (Bool-cases (le y x)) [
      | inl e ↦
          rw e (
            (e, All-imp (λ w. le w y ≡ true) (λ w. le w x ≡ true) s (λ w m. trans w y x m e) h.0),
            h,
          )
      | inr e ↦ rw e (insert_ranked-All y x s (total y x e) h.0, insert_ranked-IsRanked x s h.1)
    ]

    pub sort_ranked-IsRanked : (d : List A) → IsRanked (sort_ranked d)
    unfolding sort_ranked
    sort_ranked-IsRanked [] = tt
    sort_ranked-IsRanked (x ∷ d) = insert_ranked-IsRanked x (sort_ranked d) (sort_ranked-IsRanked d)
