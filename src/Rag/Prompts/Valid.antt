-- ===== src/Rag/Prompts/Valid.antt =====
-- What a loaded set of src/app/rag/prompts.py promises to the pipeline and to the evaluation.
use llmops_rag_api.Prelude.{
  List, Option, none, some, [], ◌∷◌, ◌≡◌, refl, All, inl, inr, true, false, arith, Option-cases, ℕ,
  sym, ap, ◌∙◌, Bool,
}
use llmops_rag_api.Text.{Text, text_eq}
use llmops_rag_api.Dict.{Dict, lookup}
use llmops_rag_api.Evaluation.Dataset.{is_seen, GoldenCase}
use llmops_rag_api.Rag.Prompts.{
  PromptSet, PromptTemplate, validate, TemplateLib, is_empty, strip, Result, load_from,
  template_placeholders, put_template, ok, codes, must_promise_refusal, raised, PromptError,
  contains, refusal_marker, all_seen, load_prompt_set, load_templates, PromptLock,
}
use llmops_rag_api.Evaluation.Metrics.{score_case}
use llmops_rag_api.Rag.Prompts.Lock.{Result-cases}
use llmops_rag_api.Rag.Pipeline.Query.{QueryResult}
use llmops_rag_api.Text.Strip.{strip-strip}

module _ (lower : Text → Text) (L : TemplateLib) where
  -- What the validation asks of a text.
  abbrev pub IsFit : Text → List Text → Text → Type 0
  IsFit name placeholders text =
      (is_empty text ≡ false)
      × (is_seen name must_promise_refusal ≡ true → contains (lower text) refusal_marker ≡ true)
      × (L.is_valid text ≡ true)
      × (all_seen (L.get_identifiers text) placeholders ≡ true)
      × (all_seen placeholders (L.get_identifiers text) ≡ true)

  validate-IsFit :
      (name text : Text) (placeholders : List Text)
      → validate lower L name text placeholders ≡ none
      → IsFit name placeholders text
  unfolding validate
  validate-IsFit name text placeholders e = ground arith

  -- The templates stand in the order of the table, each with the stripped text of its file.
  abbrev Held : List (Text × List Text) → Dict PromptTemplate → Type 0
  Held [] [] = Unit
  Held [] (_ ∷ _) = ⊥
  Held (_ ∷ _) [] = ⊥
  Held ((name, placeholders) ∷ more) ((n, t) ∷ ts) =
      (n ≡ name)
      × ((raw : Text) × (t.text ≡ strip raw))
      × IsFit name placeholders t.text
      × Held more ts

  put_template-ok :
      (t : PromptTemplate) (rest : Result (Dict PromptTemplate)) (ts : Dict PromptTemplate)
      → put_template lower L t rest ≡ ok ts
      → (us : Dict PromptTemplate) × (rest ≡ ok us) × ((t.name, t) ∷ us ≡ ts)
  put_template-ok t (raised e) ts h = absurd (clash h)
    where
      clash : raised e ≡ ok ts → ⊥
      clash k = cc
  put_template-ok t (ok us) ts h = (us, refl, cc h)

  load_from-Held :
      (read : Text → Option Text) (table : List (Text × List Text)) (ts : Dict PromptTemplate)
      → load_from lower L read table ≡ ok ts
      → Held table ts
  unfolding load_from
  load_from-Held read [] ts h = let same : [] ≡ ts = cc h in rw (← same) tt
  load_from-Held read ((name, placeholders) ∷ more) ts h = elim (Option-cases (read name)) [
    | inl e ↦ absurd (clash (rw (e, load_from) at h))
    | inr (raw, e) ↦ elim (Option-cases (validate lower L name (strip raw) placeholders)) [
      | inr (x, f) ↦ absurd (clash (rw f at (rw (e, load_from) at h)))
      | inl f ↦
          let t : PromptTemplate = record {
            name = name;
            text = strip raw;
            placeholders = placeholders;
          } in
          let (us, k, same) =
            put_template-ok t (load_from lower L read more) ts (rw f at (rw (e, load_from) at h)) in
          rw (← same) (
            refl,
            (raw, refl),
            validate-IsFit name (strip raw) placeholders f,
            load_from-Held read more us k,
          )
    ]
  ]
    where
      clash : {x : PromptError} → raised x ≡ ok ts → ⊥
      clash k = cc

  -- The set has a template of the name that fits.
  abbrev pub Has : PromptSet → Text → List Text → Type 0
  Has s name placeholders =
      (t : PromptTemplate) × (lookup name s.templates ≡ some t)
      × IsFit name placeholders t.text
      × ((raw : Text) × (t.text ≡ strip raw))

  Held-Has :
      (s : PromptSet)
      → Held template_placeholders s.templates
      → All (λ p. Has s p.0 p.1) template_placeholders
  unfolding lookup text_eq
  Held-Has s h = in_order s.templates refl h
    where
      in_order :
          (ts : Dict PromptTemplate)
          → s.templates ≡ ts
          → Held template_placeholders ts
          → All (λ p. Has s p.0 p.1) template_placeholders
      in_order [] e h = absurd h
      in_order (_ ∷ []) e h = absurd h.3
      in_order (_ ∷ _ ∷ []) e h = absurd h.3.3
      in_order ((a, t) ∷ (b, u) ∷ (c, v) ∷ []) e h = rw e (
          rw (h.0, h.3.0, h.3.3.0)
            ((t, refl, h.2, h.1), ((u, refl, h.3.2, h.3.1), ((v, refl, h.3.3.2, h.3.3.1), tt))))
      in_order (_ ∷ _ ∷ _ ∷ _ ∷ _) e h = absurd h.3.3.3

  loaded-Held :
      (sha256 : Text → Text) (read : Text → Option Text) (lock : Option PromptLock) (s : PromptSet)
      → load_prompt_set lower L sha256 read lock ≡ ok s
      → Held template_placeholders s.templates
  unfolding load_prompt_set load_templates
  loaded-Held sha256 read lock s e = elim (Result-cases (load_templates lower L read)) [
    | inl (x, f) ↦ absurd (clash (rw (f, load_prompt_set) at e))
    | inr (ts, f) ↦
        let same : ts ≡ s.templates = cc (rw (f, load_prompt_set) at e) in
        rw (← same) (load_from-Held read template_placeholders ts f)
  ]
    where
      clash : {x : PromptError} → raised x ≡ ok s → ⊥
      clash k = cc

  -- Prompts that are loaded, with whatever lock, have each of the declared templates: it is not empty, fits
  -- `string.Template`, uses exactly the declared placeholders, and contains the refusal sentence where it must.
  -- So the evaluation takes every answer that is the canned reply for a refusal.
  pub load_prompt_set-Has :
      (sha256 : Text → Text) (read : Text → Option Text) (lock : Option PromptLock) (s : PromptSet)
      → load_prompt_set lower L sha256 read lock ≡ ok s
      → All (λ p. Has s p.0 p.1) template_placeholders
        × ((t : PromptTemplate) × (lookup (codes "no_context_answer") s.templates ≡ some t)
            × ((digit : ℕ → Bool) (g : GoldenCase) (result : QueryResult) (latency : ℕ)
                → result.answer ≡ t.text
                → (score_case lower digit g result latency).refused ≡ true))
  unfolding score_case is_seen text_eq
  load_prompt_set-Has sha256 read lock s e =
      let has = Held-Has s (loaded-Held sha256 read lock s e) in
      let (t, found, fit, from) = has.1.1.0 in
      (
        has,
        (
          t,
          found,
          (λ digit g result latency same.
              let once : strip result.answer ≡ t.text =
                ap strip (same ∙ from.1) ∙ (strip-strip from.0 ∙ sym from.1) in
              rw once (fit.1 refl)),
        ),
      )
