-- ===== src/Rag/VectorStore/Holds.antt =====
-- What the store holds after `add` of src/app/rag/vectorstore.py.
use llmops_rag_api.Rag.Chroma.{Chroma, IsLawful, Item, Vector, in_batch, or_old}
use llmops_rag_api.Rag.Chunking.{Chunk}
use llmops_rag_api.Prelude.{
  Option, List, ℕ, ◌≤◌, ◌≡◌, refl, ◌≢◌, inl, inr, false, none, some, [], ◌∷◌, arith, In, All,
  length, All-In,
}
use llmops_rag_api.Text.{Text, text_eq_sound, text_eq_refl, text_eq}
use llmops_rag_api.Rag.VectorStore.{add, items_of, added}
use llmops_rag_api.Rag.Chunking.Ids.{DistinctIds}

items_of-other :
    (key : Text) (cs : List Chunk) (vs : List Vector)
    → All (λ c. key ≢ c.chunk_id) cs
    → in_batch key (items_of cs vs) ≡ none
unfolding in_batch items_of
items_of-other key [] vs h = refl
items_of-other key (c ∷ cs) [] h = refl
items_of-other key (c ∷ cs) (v ∷ vs) h =
    ground (arith, items_of-other key cs vs, text_eq_sound c.chunk_id key, h.0)

-- An item carries a chunk's text and metadata.
abbrev pub Carries : Option Item → Chunk → Type 0
Carries none c = ⊥
Carries (some i) c = (i.document ≡ c.text) × (i.metadata ≡ c.metadata)

items_of-own :
    (c : Chunk) (cs : List Chunk) (vs : List Vector)
    → DistinctIds cs
    → length cs ≤ length vs
    → In c cs
    → Carries (in_batch c.chunk_id (items_of cs vs)) c
unfolding in_batch items_of
items_of-own c [] vs u l i = absurd i
items_of-own c (d ∷ cs) [] u l i = absurd (omega arith)
items_of-own c (d ∷ cs) (v ∷ vs) u l (inl e) = rw e (rw (text_eq_refl d.chunk_id) (refl, refl))
items_of-own c (d ∷ cs) (v ∷ vs) u l (inr i) =
    let ne : d.chunk_id ≢ c.chunk_id = All-In (λ e. d.chunk_id ≢ e.chunk_id) c cs u.0 i in
    let differs : text_eq d.chunk_id c.chunk_id ≡ false =
      ground (arith, text_eq_sound d.chunk_id c.chunk_id) in
    rw differs (items_of-own c cs vs u.1 (omega arith) i)

module _ (C : Chroma) where
  -- The store has every chunk of the list.
  abbrev pub Holds : C.Dir → List Chunk → Type 0
  Holds d cs = (c : Chunk) → In c cs → Carries (C.get d c.chunk_id) c

  -- No id of the first store is missing from the second.
  abbrev pub Keeps : C.Dir → C.Dir → Type 0
  Keeps d d' = (key : Text) → C.get d key ≢ none → C.get d' key ≢ none

module _ (C : Chroma) (L : IsLawful C) where
  or_old-ne : (a b : Option Item) → b ≢ none → or_old a b ≢ none
  or_old-ne none b h e = h e
  or_old-ne (some i) b h e = cc

  or_old-Carries : (a b : Option Item) (c : Chunk) → Carries a c → Carries (or_old a b) c
  or_old-Carries none b c h = absurd h
  or_old-Carries (some i) b c h = h

  upserted :
      (d : C.Dir) (c : Chunk) (cs : List Chunk) (vs : List Vector) (n : ℕ) (d' : C.Dir)
      → add C d (c ∷ cs) vs ≡ added n d'
      → (length (c ∷ cs) ≡ length vs) × (C.upsert d (items_of (c ∷ cs) vs) ≡ some d')
  unfolding add
  upserted d c cs vs n d' e = ground arith

  -- After a successful `add` of chunks with distinct ids the store has each of them, with its text and
  -- metadata, and every id that it had before; an id that is not in the list has the item it had.
  pub add-Holds :
      (d : C.Dir) (cs : List Chunk) (vs : List Vector) {n : ℕ} {d' : C.Dir}
      → DistinctIds cs
      → add C d cs vs ≡ added n d'
      → Holds C d' cs
        × Keeps C d d'
        × ((key : Text) → All (λ c. key ≢ c.chunk_id) cs → C.get d' key ≡ C.get d key)
  unfolding add
  add-Holds d [] vs {n} {d'} u e =
      let same : d ≡ d' = cc e in rw (← same) ((λ c i. absurd i), (λ key h. h), (λ key h. refl))
  add-Holds d (c ∷ cs) vs {n} {d'} u e =
      let (lengths, put) = upserted d c cs vs n d' e in
      let items = items_of (c ∷ cs) vs in
      (
        (λ x i. rw (L.get-upsert d items d' x.chunk_id put) (
            or_old-Carries (in_batch x.chunk_id items) (C.get d x.chunk_id) x
              (items_of-own x (c ∷ cs) vs u (omega arith) i))),
        (λ key h.
            rw (L.get-upsert d items d' key put) (or_old-ne (in_batch key items) (C.get d key) h)),
        (λ key h.
            rw (L.get-upsert d items d' key put) (rw (items_of-other key (c ∷ cs) vs h) refl)),
      )
