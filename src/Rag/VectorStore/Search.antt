-- ===== src/Rag/VectorStore/Search.antt =====
-- Which of the hits of Chroma the search of src/app/rag/vectorstore.py returns.
use llmops_rag_api.Rag.Chroma.{Hit, IsNearestFirst, Chroma, IsLawful, Vector}
use llmops_rag_api.Rag.VectorStore.{
  search, passes, threshold, unit, similarity_of, scale, Rounding, retrieved, RetrievedChunk,
  filtered,
}
use llmops_rag_api.Prelude.{
  ℤ, pos, ◌≤ℤ◌, ℕ, ◌≤◌, ◌≡◌, refl, ap, inl, inr, true, false, List, [], ◌∷◌, arith, All, length,
  keep, Bool-cases, take, leb_ℤ, not, ltb, negsuc, ◌*◌, min, ◌∙◌, ◌≢◌, ◌⊎◌, map, ◌==◌, ltb_ℤ, max_ℤ,
  le-mul_right, length-map, some,
}

similarity_antitone : (d e : ℤ) → d ≤ℤ e → similarity_of e ≤ℤ similarity_of d
unfolding similarity_of
similarity_antitone d e l = ground arith

scale_mono : (a b : ℤ) → a ≤ℤ b → scale unit a ≤ℤ scale unit b
scale_mono a b l = ground arith

not_below : (a b bar : ℤ) → a ≤ℤ b → not (ltb_ℤ a bar) ≡ true → not (ltb_ℤ b bar) ≡ true
not_below a b bar l e = ground arith

-- A nearer hit passes wherever a farther one does.
passes-nearer :
    (bar : ℤ) (h k : Hit) → h.distance ≤ℤ k.distance → passes bar k ≡ true → passes bar h ≡ true
unfolding passes
passes-nearer bar h k l e =
    not_below (scale unit (similarity_of k.distance)) (scale unit (similarity_of h.distance)) bar
      (scale_mono (similarity_of k.distance) (similarity_of h.distance)
        (similarity_antitone h.distance k.distance l))
      e

none-passes :
    (bar : ℤ) (h : Hit) (hs : List Hit)
    → All (λ k. h.distance ≤ℤ k.distance) hs
    → passes bar h ≡ false
    → keep (passes bar) hs ≡ []
none-passes bar h [] l e = refl
none-passes bar h (k ∷ hs) l e = elim (Bool-cases (passes bar k)) [
  | inl f ↦ absurd (clash (passes-nearer bar h k l.0 f))
  | inr f ↦ rw f (none-passes bar h hs l.1 e)
]
  where
    clash : passes bar h ≡ true → ⊥
    clash f = cc

-- What is kept of hits that stand nearest first is a front part of them.
keep-take :
    (bar : ℤ) (hs : List Hit)
    → IsNearestFirst hs
    → keep (passes bar) hs ≡ take (length (keep (passes bar) hs)) hs
keep-take bar [] n = refl
keep-take bar (h ∷ hs) n = elim (Bool-cases (passes bar h)) [
  | inl e ↦ rw e (ap (λ ks. h ∷ ks) (keep-take bar hs n.1))
  | inr e ↦ rw e (rw (none-passes bar h hs n.0 e) refl)
]

length-keep : (bar : ℤ) (hs : List Hit) → length (keep (passes bar) hs) ≤ length hs
length-keep bar [] = omega arith
length-keep bar (h ∷ hs) = ground (arith, length-keep bar hs)

meets_floor :
    (floor ratio : ℕ) (s : ℤ)
    → ratio ≤ unit
    → not (ltb_ℤ (scale unit s) (max_ℤ (pos (unit * floor)) (scale ratio s))) ≡ leb_ℤ (pos floor) s
meets_floor floor ratio (pos n) l =
    let below : ratio * n ≤ unit * n = le-mul_right ratio unit n l in ground arith
meets_floor floor ratio (negsuc n) l = ground arith

meets_floor_only :
    (floor : ℕ) (s : ℤ) → not (ltb_ℤ (scale unit s) (pos (unit * floor))) ≡ leb_ℤ (pos floor) s
meets_floor_only floor (pos n) = ground arith
meets_floor_only floor (negsuc n) = ground arith

-- The bar that the best hit sets for the others it meets itself, if it meets the floor.
best-passes :
    (floor ratio : ℕ) (h : Hit) (hs : List Hit)
    → ratio ≤ unit
    → passes (threshold floor ratio (h ∷ hs)) h ≡ leb_ℤ (pos floor) (similarity_of h.distance)
unfolding passes threshold
best-passes floor ratio h hs l = elim (Bool-cases (ltb 0 ratio)) [
  | inl e ↦ rw e (meets_floor floor ratio (similarity_of h.distance) l)
  | inr e ↦ rw e (meets_floor_only floor (similarity_of h.distance))
]

module _ (C : Chroma) (L : IsLawful C) (rounding : Rounding) (d : C.Dir) (v : Vector)
    (top_k floor ratio : ℕ) where
  -- Where Chroma does not raise, the search returns the nearest stored chunks, at most `top_k` of them: what the filters drop are
  -- the farthest hits of Chroma, never one in between.
  pub search-nearest :
      (found : List Hit)
      → C.count d ≢ 0
      → C.query d v (min top_k (C.count d)) ≡ some found
      → (results : List RetrievedChunk) × (search C rounding d v top_k floor ratio ≡ some results)
        × (results ≡ map (retrieved rounding) (take (length results) found))
        × (length results ≤ top_k)
  unfolding search filtered
  search-nearest found full q =
      let bar = threshold floor ratio found in
      let some_items : (C.count d == 0) ≡ false = ground arith in
      let same_length = length-map (retrieved rounding) (keep (passes bar) found) in
      (
        map (retrieved rounding) (keep (passes bar) found),
        rw some_items (rw q refl),
        rw same_length (
            ap (map (retrieved rounding))
              (keep-take bar found (L.query-nearest d v (min top_k (C.count d)) found q))),
        omega (
          arith,
          same_length,
          length-keep bar found,
          L.query-length d v (min top_k (C.count d)) found q,
        ),
      )

  -- With a ratio of at most 1, the relative filter never empties a result: where Chroma does not raise and has a
  -- hit, the search returns nothing
  -- exactly when the nearest hit is below the floor, and otherwise returns that hit first.
  pub search-best :
      (h : Hit) (hs : List Hit)
      → C.count d ≢ 0
      → ratio ≤ unit
      → C.query d v (min top_k (C.count d)) ≡ some (h ∷ hs)
      → ((leb_ℤ (pos floor) (similarity_of h.distance) ≡ true)
          × (rest : List RetrievedChunk) × (search C rounding d v top_k floor ratio
              ≡ some (retrieved rounding h ∷ rest)))
        ⊎ ((leb_ℤ (pos floor) (similarity_of h.distance) ≡ false)
            × (search C rounding d v top_k floor ratio ≡ some []))
  unfolding search filtered
  search-best h hs full l e =
      let bar = threshold floor ratio (h ∷ hs) in
      let some_items : (C.count d == 0) ≡ false = ground arith in
      let same = best-passes floor ratio h hs l in
      let near : IsNearestFirst (h ∷ hs) = L.query-nearest d v (min top_k (C.count d)) (h ∷ hs) e in
      rw some_items (
        rw e (elim (Bool-cases (leb_ℤ (pos floor) (similarity_of h.distance))) [
          | inl f ↦ rw (same ∙ f) (inl (f, map (retrieved rounding) (keep (passes bar) hs), refl))
          | inr f ↦ rw (same ∙ f) (inr (f, rw (none-passes bar h hs near.0 (same ∙ f)) refl))
        ]))
