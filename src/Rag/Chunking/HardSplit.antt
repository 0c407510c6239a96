-- ===== src/Rag/Chunking/HardSplit.antt =====
-- The fixed-width split of src/app/rag/chunking.py.
use llmops_rag_api.Text.{Text}
use llmops_rag_api.Prelude.{
  List, ℕ, ◌≤◌, ◌≡◌, refl, [], ◌∷◌, ◌++◌, arith, length, ap, suc, take, ◌<◌, zero, ◌-◌, max, map,
  drop, length-drop, take-append-drop,
}
use llmops_rag_api.Rag.Chunking.{hard_split, windows}

pub flatten_all : List Text → Text
flatten_all [] = []
flatten_all (s ∷ ss) = s ++ flatten_all ss

take-take : {A : Type 0} (m n : ℕ) (xs : List A) → m ≤ n → take m (take n xs) ≡ take m xs
take-take zero n xs l = refl
take-take (suc m) zero xs l = absurd (omega arith)
take-take (suc m) (suc n) [] l = refl
take-take (suc m) (suc n) (x ∷ xs) l = ap (λ ys. x ∷ ys) (take-take m n xs (omega arith))

windows-rejoin :
    (rounds size step : ℕ) (s : Text)
    → 0 < step
    → step ≤ size
    → length s ≤ rounds
    → flatten_all (map (take step) (windows rounds size step s)) ≡ s
unfolding windows flatten_all
windows-rejoin zero size step [] p q l = refl
windows-rejoin zero size step (c ∷ s) p q l = absurd (omega arith)
windows-rejoin (suc rounds) size step [] p q l = refl
windows-rejoin (suc rounds) size step (c ∷ s) p q l = rw (take-take step size (c ∷ s) q) (
    rw
      (windows-rejoin rounds size step (drop step (c ∷ s)) p q
        (omega (arith, length-drop step (c ∷ s))))
      (take-append-drop step (c ∷ s)))

-- A paragraph that is cut is cut with no gap: the pieces, each without the overlap at its end, make
-- up the paragraph again.
pub hard_split-rejoin :
    (text : Text) (size overlap : ℕ)
    → overlap < size
    → flatten_all (map (take (size - overlap)) (hard_split text size overlap)) ≡ text
unfolding hard_split
hard_split-rejoin text size overlap l =
    let step : max 1 (size - overlap) ≡ size - overlap = omega arith in
    rw step (
      windows-rejoin (length text) size (size - overlap) text (omega arith) (omega arith)
        (omega arith))
