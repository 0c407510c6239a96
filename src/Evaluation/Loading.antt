-- ===== src/Evaluation/Loading.antt =====
-- What src/app/evaluation/dataset.py guarantees of a golden set that it loads.
use llmops_rag_api.Evaluation.Dataset.{
  GoldenCase, RawCase, LoadError, Loaded, failed, loaded, load_lines, make_case, is_seen,
  is_skipped, case_id_of, load_cases, put_case, duplicate_id, some_cases, no_question,
}
use llmops_rag_api.Prelude.{
  List, ℕ, ◌+◌, ◌≡◌, refl, ◌⊎◌, inl, inr, false, Option, [], ◌∷◌, Bool-cases, Option-cases, Bool,
  ap, ◌∙◌, ◌≢◌, true, if◌then◌else◌,
}
use llmops_rag_api.Text.{Text, is_empty, strip}

Loaded-cases :
    (x : Loaded) → ((e : LoadError) × (x ≡ failed e)) ⊎ ((cs : List GoldenCase) × (x ≡ loaded cs))
Loaded-cases (failed e) = inl (e, refl)
Loaded-cases (loaded cs) = inr (cs, refl)

-- No case has an id that was seen or that an earlier case has, and each has a question.
abbrev pub IsSound : List Text → List GoldenCase → Type 0
IsSound seen [] = Unit
IsSound seen (c ∷ cs) =
    (is_seen c.id seen ≡ false) × (is_empty c.question ≡ false) × IsSound (c.id ∷ seen) cs

read_case :
    (twice blank : Bool) (e1 e2 : LoadError) (c : GoldenCase) (rest : Loaded) (cs : List GoldenCase)
    → (if twice then failed e1 else if blank then failed e2 else put_case c rest) ≡ loaded cs
    → (twice ≡ false)
      × (blank ≡ false)
      × ((later : List GoldenCase) × (rest ≡ loaded later) × (c ∷ later ≡ cs))
read_case true blank e1 e2 c rest cs h = absurd (cc h)
read_case false true e1 e2 c rest cs h = absurd (cc h)
read_case false false e1 e2 c (failed e) cs h = absurd (cc h)
read_case false false e1 e2 c (loaded later) cs h = (refl, refl, (later, refl, cc h))

module _ (parse : Text → Option RawCase) where
  load_lines-IsSound :
      (n : ℕ) (seen lines : List Text) (cs : List GoldenCase)
      → load_lines parse n seen lines ≡ loaded cs
      → IsSound seen cs
  unfolding load_lines make_case
  load_lines-IsSound n seen [] cs e = let same : [] ≡ cs = cc e in rw (← same) tt
  load_lines-IsSound n seen (raw ∷ lines) cs e = elim (Bool-cases (is_skipped (strip raw))) [
    | inl f ↦ load_lines-IsSound (n + 1) seen lines cs (rw (f, load_lines) at e)
    | inr f ↦ elim (Option-cases (parse (strip raw))) [
      | inl p ↦ absurd (clash (rw (p, load_lines) at (rw (f, load_lines) at e)))
      | inr (r, p) ↦
          let id = case_id_of r.raw_id n in
          let (fresh, asked, (later, loads, same)) =
            read_case (is_seen id seen) (is_empty (strip r.raw_question)) (duplicate_id n id)
              (no_question n id) (make_case id r) (load_lines parse (n + 1) (id ∷ seen) lines) cs
              (rw (p, load_lines) at (rw (f, load_lines) at e)) in
          rw (← same) (fresh, asked, load_lines-IsSound (n + 1) (id ∷ seen) lines later loads)
    ]
  ]
    where
      clash : {x : LoadError} → failed x ≡ loaded cs → ⊥
      clash h = cc

  -- A golden set that loads is not empty, each of its cases has a question, and no two have one id.
  pub load_cases-IsSound :
      (lines : List Text) (cs : List GoldenCase)
      → load_cases parse lines ≡ loaded cs
      → IsSound [] cs × (cs ≢ [])
  unfolding load_cases
  load_cases-IsSound lines cs e = elim (Loaded-cases (load_lines parse 1 [] lines)) [
    | inl (x, f) ↦ absurd (clash (rw f at e))
    | inr (found, f) ↦
        let some_found = kept found (rw f at e) in
        (load_lines-IsSound 1 [] lines cs (f ∙ ap loaded some_found.0), some_found.1)
  ]
    where
      clash : {x : LoadError} → failed x ≡ loaded cs → ⊥
      clash h = cc

      kept :
          (found : List GoldenCase)
          → some_cases parse (loaded found) ≡ loaded cs
          → (found ≡ cs) × (cs ≢ [])
      kept [] h = absurd (cc h)
      kept (c ∷ later) h = (cc h, (λ none_left. cc (h, none_left)))
