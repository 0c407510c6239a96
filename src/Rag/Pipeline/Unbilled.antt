-- ===== src/Rag/Pipeline/Unbilled.antt =====
-- What the guard misses: an ingest of src/app/rag/pipeline.py whose embedding was paid for, and whose
-- chunks the store then refuses (two chunks with one id are such a case: two documents of a request with one id).
use llmops_rag_api.Prelude.{
  ◌++◌, ℕ, zero, suc, ◌≤◌, ◌<◌, ◌≡◌, refl, Bool, none, some, List, [], ◌∷◌, map, arith, length, All,
}
use llmops_rag_api.Rag.Pipeline.{EmbeddingResult, Provider, Settings, Call, embedded, Text}
use llmops_rag_api.Rag.Pipeline.Ingest.{
  Document, State, store_failed, ingest, prepare, store_chunks,
}
use llmops_rag_api.Rag.VectorStore.{add, store_error}
use llmops_rag_api.Rag.Chroma.{Chroma}
use llmops_rag_api.Tracking.SpendGuard.{check, roll_window, enabled, Readings, SpendGuard}
use llmops_rag_api.Persistence.{Gcs, Tar}
use llmops_rag_api.Rounding.{Rounding}
use llmops_rag_api.Rag.Chunking.{Chunk}

check-passes :
    (rounding : Rounding) (r : Readings) (g : SpendGuard)
    → g.spent < g.budget
    → ((check rounding r g).0 ≡ none)
      × ((check rounding r g).1.budget ≡ g.budget)
      × ((check rounding r g).1.spent ≤ g.spent)
unfolding check roll_window enabled
check-passes rounding r g h = ground arith

module _ (G : Gcs) (C : Chroma) (T : Tar C.Dir) (enabled : Bool) (workspace : List Text)
    (P : Provider) (settings : Settings) (rounding : Rounding) (others : ℕ → G.Bucket → G.Bucket)
    (sha256 : Text → Text) (docs : List Document) where
  ingest_refused :
      (checking recording : Readings) (s : State C.Dir G.Bucket) (c : Chunk) (cs : List Chunk)
      (ids : List Text) (r : EmbeddingResult)
      → (check rounding checking s.guard).0 ≡ none
      → prepare sha256 settings docs ≡ some (c ∷ cs, ids)
      → P.embed (map (λ (x : Chunk). x.text) (c ∷ cs)) ≡ some r
      → add C s.instance_state.dir (c ∷ cs) r.vectors ≡ store_error
      → ingest G C T enabled workspace P settings rounding others sha256 checking recording docs s
        ≡ (
          store_failed,
          record s { guard = (check rounding checking s.guard).1 },
          embedded (map (λ (x : Chunk). x.text) (c ∷ cs)) ∷ [],
        )
  unfolding ingest store_chunks
  ingest_refused checking recording s c cs ids r e f h k =
      rw (e, ingest) (rw (f, ingest) (rw (h, store_chunks) (rw (k, store_chunks) refl)))

  -- The same request so many times, with the readings of each: all calls of the provider, and the state after.
  unfoldable pub repeat :
      (ℕ → Readings) → (ℕ → Readings) → ℕ → State C.Dir G.Bucket → List Call × State C.Dir G.Bucket
  repeat checking recording zero s = ([], s)
  repeat checking recording (suc n) s =
      let (end, s', calls) =
        ingest G C T enabled workspace P settings rounding others sha256 (checking n) (recording n)
          docs s in
      let (rest, t) = repeat checking recording n s' in (calls ++ rest, t)

  -- A request whose chunks the store refuses, below the budget at first, can be repeated any number of times: each
  -- time the provider embeds its texts, the guard never counts it and never refuses it.
  pub repeat-unbilled :
      (checking recording : ℕ → Readings) (n : ℕ) (s : State C.Dir G.Bucket) (c : Chunk)
      (cs : List Chunk) (ids : List Text) (r : EmbeddingResult)
      → s.guard.spent < s.guard.budget
      → prepare sha256 settings docs ≡ some (c ∷ cs, ids)
      → P.embed (map (λ (x : Chunk). x.text) (c ∷ cs)) ≡ some r
      → add C s.instance_state.dir (c ∷ cs) r.vectors ≡ store_error
      → let (calls, t) = repeat checking recording n s in
        (length calls ≡ n)
        × All (λ call. call ≡ embedded (map (λ (x : Chunk). x.text) (c ∷ cs))) calls
        × (t.guard.spent ≤ s.guard.spent)
  unfolding repeat
  repeat-unbilled checking recording zero s c cs ids r l f h k = (refl, tt, omega arith)
  repeat-unbilled checking recording (suc n) s c cs ids r l f h k =
      let (passes, budget, spent) = check-passes rounding (checking n) s.guard l in
      let s1 : State C.Dir G.Bucket = record s {
        guard = (check rounding (checking n) s.guard).1;
      } in
      let (count, same, later) =
        repeat-unbilled checking recording n s1 c cs ids r (omega arith) f h k in
      rw (ingest_refused (checking n) (recording n) s c cs ids r passes f h k)
        (omega arith, (refl, same), omega arith)
