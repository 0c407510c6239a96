-- ===== src/Rag/Pipeline/Accounts.antt =====
-- What a query of src/app/rag/pipeline.py costs, and what it records with the spend guard.
use llmops_rag_api.Prelude.{
  pos, ℕ, ◌+◌, ◌≤◌, ◌≡◌, refl, ◌⊎◌, inl, inr, true, Option, none, some, List, [], ◌∷◌, arith, ◌==◌,
  length, Bool-cases, suc, Option-cases, zero, min,
}
use llmops_rag_api.Rag.Pipeline.{
  Provider, Settings, Prompts, Call, embedded, or_number, Text, completed, EmbeddingResult,
  ChatResult,
}
use llmops_rag_api.Rag.Pipeline.Query.{
  QueryResult, QueryEnd, over_budget, provider_failed, answered, query, respond, generate, retrieve,
  with_context, without_context, hits_for, build_context, first_vector, store_failed,
}
use llmops_rag_api.Rag.VectorStore.{RetrievedChunk, search}
use llmops_rag_api.Rag.VectorStore.Search.{search-nearest}
use llmops_rag_api.Rag.Chroma.{Chroma, Vector, IsLawful}
use llmops_rag_api.Rounding.{Rounding}
use llmops_rag_api.Tracking.Cost.{estimate_cost_usd}
use llmops_rag_api.Tracking.SpendGuard.{Readings, SpendGuard, record_cost, check, BudgetExceeded}

or_number-some : (a : Option ℕ) (d : ℕ) → or_number (some (or_number a d)) d ≡ or_number a d
or_number-some none zero = refl
or_number-some none (suc d) = refl
or_number-some (some zero) zero = refl
or_number-some (some zero) (suc d) = refl
or_number-some (some (suc n)) d = refl

module _ (C : Chroma) (K : IsLawful C) (P : Provider) (settings : Settings)
    (rounding : Rounding) where
  -- An exception of the store, or at most `k` hits.
  abbrev AtMost : C.Dir → Vector → ℕ → Option (List RetrievedChunk) → Type 0
  AtMost d v k o =
      ((o ≡ none) × (n : ℕ) × (C.query d v n ≡ none))
      ⊎ ((hits : List RetrievedChunk) × (o ≡ some hits) × (length hits ≤ k))

  search-AtMost :
      (d : C.Dir) (v : Vector) (top_k floor ratio : ℕ)
      → AtMost d v top_k (search C rounding d v top_k floor ratio)
  unfolding search
  search-AtMost d v top_k floor ratio = elim (Bool-cases (C.count d == 0)) [
    | inl e ↦ rw e (inr ([], refl, omega arith))
    | inr e ↦ elim (Option-cases (C.query d v (min top_k (C.count d)))) [
      | inl q ↦ rw e (rw q (inl (refl, min top_k (C.count d), q)))
      | inr (found, q) ↦
          let (hits, same, front, few) =
            search-nearest C K rounding d v top_k floor ratio found (λ h. ground arith) q in
          inr (hits, same, few)
    ]
  ]

  hits_for-AtMost :
      (v : Vector) (k : ℕ) (d : C.Dir) → AtMost d v k (hits_for C P settings rounding v k d)
  unfolding hits_for
  hits_for-AtMost [] k d = inr ([], refl, omega arith)
  hits_for-AtMost (x ∷ v) k d =
      search-AtMost d (x ∷ v) k settings.min_similarity settings.min_similarity_ratio

  -- The costs of the answer's model and of the embedding, each at its list price.
  abbrev pub Priced : QueryResult → Type 0
  Priced q =
      q.cost_usd
      ≡ estimate_cost_usd q.model q.prompt_tokens q.completion_tokens
        + estimate_cost_usd settings.embedding_model q.embedding_tokens 0

  -- The tokens are those of the calls: of the embedding, and of the completion if there is one.
  abbrev pub Charged : Text → List Call → QueryResult → Type 0
  Charged question calls q =
      ((e : EmbeddingResult) × (P.embed (question ∷ []) ≡ some e) × (q.embedding_tokens ≡ e.tokens))
      × (((calls ≡ []) × (q.prompt_tokens ≡ 0) × (q.completion_tokens ≡ 0))
          ⊎ ((system : Text) × (user : Text) × (c : ChatResult) × (calls
                ≡ completed system user ∷ [])
              × (P.complete system user ≡ some c)
              × (q.prompt_tokens ≡ c.prompt_tokens)
              × (q.completion_tokens ≡ c.completion_tokens)
              × (q.model ≡ c.model)))

  -- An answered query, where `g` is the guard after the check.
  abbrev pub Answered :
      Text → ℕ → Readings → SpendGuard → QueryEnd × SpendGuard × List Call → Type 0
  Answered question k recording g run =
      (q : QueryResult) × (calls : List Call) × (run
        ≡ (answered q, record_cost recording (pos q.cost_usd) g, embedded (question ∷ []) ∷ calls))
      × Charged question calls q
      × Priced q
      × (length q.sources ≤ k)
      × (q.sources ≡ [] → (calls ≡ []) × (q.refused ≡ true))

  -- An exception of the provider, or one of the store after the embedding.
  abbrev pub Failed : Text → C.Dir → SpendGuard → QueryEnd × SpendGuard × List Call → Type 0
  Failed question d g run =
      ((P.embed (question ∷ []) ≡ none)
        × (run ≡ (provider_failed, g, embedded (question ∷ []) ∷ [])))
      ⊎ (((e : EmbeddingResult) × (n : ℕ) × (P.embed (question ∷ []) ≡ some e)
            × (C.query d (first_vector e.vectors) n ≡ none)
            × (run ≡ (store_failed, g, embedded (question ∷ []) ∷ [])))
          ⊎ ((system : Text) × (user : Text) × (P.complete system user ≡ none)
              × (run
                  ≡ (provider_failed, g, embedded (question ∷ []) ∷ completed system user ∷ []))))

  respond-outcome :
      (lower : Text → Text) (prompts : Prompts) (recording : Readings) (question : Text)
      (hits : List RetrievedChunk) (k : ℕ) (d : C.Dir) (g : SpendGuard) (e : EmbeddingResult)
      → P.embed (question ∷ []) ≡ some e
      → length hits ≤ k
      → let run = respond C P settings rounding lower prompts recording question hits e.tokens g in
        Failed question d g run ⊎ Answered question k recording g run
  unfolding respond generate without_context with_context estimate_cost_usd
  respond-outcome lower prompts recording question [] k d g r x l = inr (
    without_context C P settings rounding prompts r.tokens,
    [],
    refl,
    ((r, x, refl), inl (refl, refl, refl)),
    omega arith,
    omega arith,
    (λ e. (refl, refl)),
  )
  respond-outcome lower prompts recording question (h ∷ hs) k d g r x l =
      let user_prompt = prompts.render_user (build_context (h ∷ hs)) question in
      elim (Option-cases (P.complete prompts.answer_system user_prompt)) [
        | inl e ↦ rw (e, generate) (inl (inr (inr (prompts.answer_system, user_prompt, e, refl))))
        | inr (c, e) ↦
            rw (e, generate)
              (inr (
                with_context C P settings rounding lower (h ∷ hs) r.tokens c,
                completed prompts.answer_system user_prompt ∷ [],
                refl,
                (
                  (r, x, refl),
                  inr (prompts.answer_system, user_prompt, c, refl, e, refl, refl, refl),
                ),
                refl,
                l,
                (λ f. cc f),
              ))
      ]

  -- A query that the guard refuses makes no call of the provider. Any other makes the embedding call
  -- first; if the provider raises then or later, or the store raises in between, the guard stays as the check
  -- left it, so that what was embedded is not recorded. Otherwise the guard records exactly the cost that the
  -- result reports: the price of the answer's tokens plus that of the embedding, as the provider gave them. A result has at most `top_k` sources, and one without
  -- sources is a refusal that made no second call.
  pub query-outcome :
      (lower : Text → Text) (prompts : Prompts) (checking recording : Readings) (question : Text)
      (top_k : Option ℕ) (d : C.Dir) (g : SpendGuard)
      → let run = query C P settings rounding lower prompts checking recording question top_k d g in
        let (refusal, g1) = check rounding checking g in
        ((e : BudgetExceeded) × (refusal ≡ some e) × (run ≡ (over_budget e, g1, [])))
        ⊎ ((refusal ≡ none)
            × (Failed question d g1 run
                ⊎ Answered question (or_number top_k settings.top_k) recording g1 run))
  unfolding query retrieve
  query-outcome lower prompts checking recording question top_k d g =
      let k = or_number top_k settings.top_k in
      elim (Option-cases (check rounding checking g).0) [
        | inr (e, f) ↦ rw (f, query) (inl (e, refl, refl))
        | inl f ↦ elim (Option-cases (P.embed (question ∷ []))) [
          | inl x ↦ rw (f, query) (rw (x, query) (inr (refl, inl (inl (refl, refl)))))
          | inr (r, x) ↦
              elim (hits_for-AtMost (first_vector r.vectors) (or_number (some k) settings.top_k)
                d) [
                  | inl (s, n, q) ↦
                      rw (f, query)
                        (rw (x, query)
                          (rw (s, query) (inr (refl, inl (inr (inl (r, n, refl, q, refl)))))))
                  | inr (hits, s, few) ↦
                      let bound : length hits ≤ k =
                        omega (arith, few, or_number-some top_k settings.top_k) in
                      rw (f, query)
                        (rw (x, query)
                          (rw (s, query)
                            (inr (
                              refl,
                              rw x at (
                                  respond-outcome lower prompts recording question hits k d
                                    (check rounding checking g).1 r x bound),
                            ))))
                ]
        ]
      ]
