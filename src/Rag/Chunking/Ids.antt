-- ===== src/Rag/Chunking/Ids.antt =====
-- That the ids which src/app/rag/chunking.py makes tell the chunks apart. The store upserts by them.
use llmops_rag_api.Text.{Text}
use Prim.Native.Nat.{ℕ}
use llmops_rag_api.Prelude.{
  All, drop, List, ◌+◌, ◌<◌, ◌≡◌, refl, sym, ap, subst, ◌≢◌, ◌⊎◌, inl, inr, Option, none, some, [],
  ◌∷◌, ◌++◌, map, arith, All-append_right, All-imp, Option-cases,
}
use llmops_rag_api.Rag.Chunking.{
  make_id, make_chunks, chunk_document, decimal, Chunk, Dict, split_text, resolve_id,
}
use llmops_rag_api.Text.Decimal.{read_decimal, IsDigit, read_decimal-decimal, decimal-IsDigit}

NoColon : Text → Type 0
NoColon = All (λ c. c ≢ b':')

NoColon-inside : (a s : Text) → NoColon (a ++ (b':' ∷ s)) → ⊥
unfolding NoColon
NoColon-inside a s h = (All-append_right (λ c. c ≢ b':') a (b':' ∷ s) h).0 refl

abbrev behead : Text → Text
behead = drop 1

-- After the last "::" stand digits only, so that both parts can be read off the id.
split_id :
    (d d' s s' : Text)
    → NoColon s
    → NoColon s'
    → d ++ (b':' ∷ b':' ∷ s) ≡ d' ++ (b':' ∷ b':' ∷ s')
    → (d ≡ d') × (s ≡ s')
split_id [] [] s s' h h' e = (refl, ap (drop 2) e)
split_id [] (x ∷ []) s s' h h' e = absurd (NoColon-inside [] s' (subst NoColon (ap (drop 2) e) h))
split_id [] (x ∷ y ∷ d') s s' h h' e =
    absurd (NoColon-inside d' (b':' ∷ s') (subst NoColon (ap (drop 2) e) h))
split_id (x ∷ []) [] s s' h h' e =
    absurd (NoColon-inside [] s (subst NoColon (sym (ap (drop 2) e)) h'))
split_id (x ∷ y ∷ d) [] s s' h h' e =
    absurd (NoColon-inside d (b':' ∷ s) (subst NoColon (sym (ap (drop 2) e)) h'))
split_id (x ∷ d) (y ∷ d') s s' h h' e =
    let (p, q) = split_id d d' s s' h h' (ap behead e) in
    let same : x ≡ y = cc e in (cc (p, same), q)

decimal-NoColon : (n : ℕ) → NoColon (decimal n)
unfolding NoColon
decimal-NoColon n =
    All-imp IsDigit (λ c. c ≢ b':') (decimal n) (λ c h. omega arith) (decimal-IsDigit n)

-- Chunks with the same id are the chunk of the same index of the same document, whatever the
-- document's id is made of.
make_id-injective :
    (doc_id doc_id' : Text) (index index' : ℕ)
    → make_id doc_id index ≡ make_id doc_id' index'
    → (doc_id ≡ doc_id') × (index ≡ index')
unfolding make_id
make_id-injective doc_id doc_id' index index' e =
    let (p, q) =
      split_id doc_id doc_id' (decimal index) (decimal index') (decimal-NoColon index)
        (decimal-NoColon index') e in
    (
      p,
      omega (arith, ap (read_decimal 0) q, read_decimal-decimal index, read_decimal-decimal index'),
    )

-- No two chunks have the same id.
abbrev pub DistinctIds : List Chunk → Type 0
DistinctIds [] = Unit
DistinctIds (c ∷ cs) = All (λ d. c.chunk_id ≢ d.chunk_id) cs × DistinctIds cs

make_chunks-later :
    (doc_id : Text) (metadata : Dict Text) (index later : ℕ) (pieces : List Text)
    → index < later
    → All (λ d. make_id doc_id index ≢ d.chunk_id) (make_chunks doc_id metadata later pieces)
unfolding make_chunks
make_chunks-later doc_id metadata index later [] l = tt
make_chunks-later doc_id metadata index later (piece ∷ pieces) l = (
  λ e. absurd (omega (arith, (make_id-injective doc_id doc_id index later e).1)),
  make_chunks-later doc_id metadata index (later + 1) pieces (omega arith),
)

make_chunks-DistinctIds :
    (doc_id : Text) (metadata : Dict Text) (index : ℕ) (pieces : List Text)
    → DistinctIds (make_chunks doc_id metadata index pieces)
unfolding make_chunks
make_chunks-DistinctIds doc_id metadata index [] = tt
make_chunks-DistinctIds doc_id metadata index (piece ∷ pieces) = (
  make_chunks-later doc_id metadata index (index + 1) pieces (omega arith),
  make_chunks-DistinctIds doc_id metadata (index + 1) pieces,
)

make_chunks-text :
    (doc_id : Text) (metadata : Dict Text) (index : ℕ) (pieces : List Text)
    → map (λ c. c.text) (make_chunks doc_id metadata index pieces) ≡ pieces
unfolding make_chunks
make_chunks-text doc_id metadata index [] = refl
make_chunks-text doc_id metadata index (piece ∷ pieces) =
    ap (λ ps. piece ∷ ps) (make_chunks-text doc_id metadata (index + 1) pieces)

-- The chunks of one document carry the pieces of `split_text` in order, under ids that differ; the
-- call fails exactly when `split_text` does.
chunk_document-split_text :
    (sha256 : Text → Text) (text : Text) (doc_id : Option Text) (metadata : Dict Text)
    (size overlap : ℕ)
    → ((split_text text size overlap ≡ none)
        × (chunk_document sha256 text doc_id metadata size overlap ≡ none))
      ⊎ ((pieces : List Text) × (chunks : List Chunk) × (split_text text size overlap ≡ some pieces)
          × (chunk_document sha256 text doc_id metadata size overlap ≡ some chunks)
          × (map (λ c. c.text) chunks ≡ pieces)
          × DistinctIds chunks)
unfolding chunk_document
chunk_document-split_text sha256 text doc_id metadata size overlap =
    elim (Option-cases (split_text text size overlap)) [
      | inl e ↦ inl (e, rw e refl)
      | inr (pieces, e) ↦
          let name = resolve_id sha256 doc_id text in
          inr (
            pieces,
            make_chunks name metadata 0 pieces,
            e,
            rw e refl,
            make_chunks-text name metadata 0 pieces,
            make_chunks-DistinctIds name metadata 0 pieces,
          )
    ]
