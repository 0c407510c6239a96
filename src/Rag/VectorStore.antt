-- ===== src/Rag/VectorStore.antt =====
-- src/app/rag/vectorstore.py over the Chroma of Rag/Chroma.antt. A similarity and a threshold are
-- counted in units of 1e-8; where a ratio is applied, both sides are counted in units of 1e-16, so
-- that nothing is rounded but what the source rounds. Float error is not modelled.
pub mod Search
pub mod Holds
use llmops_rag_api.Rag.Chroma.{Chroma, Item, Hit, Vector}
use Prim.Native.Nat.{ℕ}
use llmops_rag_api.Text.{Text, codes}
use llmops_rag_api.Prelude.{
  List, ℤ, Option, pos, negsuc, suc, ◌+◌, ◌*◌, min, Bool, not, none, some, [], ◌∷◌, map, ◌==◌,
  if◌then◌else◌, sub_ℕ, ltb, ltb_ℤ, keep, neg_part, max_ℤ, length, pos_part,
}
use llmops_rag_api.Rounding.{Rounding}
use llmops_rag_api.Dict.{Dict, lookup}
use llmops_rag_api.Rag.Chunking.{Chunk}

abbrev pub unit : ℕ
unit = 100_000_000

pub record RetrievedChunk : Type 0 where
  pub chunk_id : Text
  pub doc_id : Text
  pub text : Text
  pub similarity : ℤ
  pub metadata : Dict Text

-- What `add` does: the count and the new directory, the `ValueError`, or an error of Chroma.
pub data Added (D : Type 0) : Type 0 where
  added : ℕ → D → Added D
  value_error : Added D
  store_error : Added D

unfoldable pub items_of : List Chunk → List Vector → List Item
items_of [] vs = []
items_of (c ∷ cs) [] = []
items_of (c ∷ cs) (v ∷ vs) =
    record { id = c.chunk_id; document = c.text; embedding = v; metadata = c.metadata }
    ∷ items_of cs vs

-- `1.0 - distance`
unfoldable pub similarity_of : ℤ → ℤ
similarity_of distance = sub_ℕ (unit + neg_part distance) (pos_part distance)

abbrev pub scale : ℕ → ℤ → ℤ
scale k (pos n) = pos (k * n)
scale k (negsuc n) = sub_ℕ 0 (k * suc n)

-- `max(min_similarity, min_similarity_ratio * (1.0 - distances[0]))`, in units of 1e-16.
unfoldable pub threshold : ℕ → ℕ → List Hit → ℤ
threshold min_similarity ratio [] = pos (unit * min_similarity)
threshold min_similarity ratio (best ∷ _) =
    if ltb 0 ratio
    then max_ℤ (pos (unit * min_similarity)) (scale ratio (similarity_of best.distance))
    else pos (unit * min_similarity)

abbrev pub or_blank : Option Text → Text
or_blank none = []
or_blank (some s) = s

-- `round(similarity, 4)`, with the sign kept, in units of 1e-4.
unfoldable pub round_similarity : Rounding → ℤ → ℤ
round_similarity rounding (pos n) = pos (rounding.round_ratio n 10_000)
round_similarity rounding (negsuc n) = sub_ℕ 0 (rounding.round_ratio (suc n) 10_000)

unfoldable pub retrieved : Rounding → Hit → RetrievedChunk
unfolding similarity_of round_similarity
retrieved rounding h = record {
  chunk_id = h.item.id;
  doc_id = or_blank (lookup (codes "doc_id") h.item.metadata);
  text = h.item.document;
  similarity = round_similarity rounding (similarity_of h.distance);
  metadata = h.item.metadata;
}

-- The test of the loop: `not similarity < threshold`.
unfoldable pub passes : ℤ → Hit → Bool
passes bar h = not (ltb_ℤ (scale unit (similarity_of h.distance)) bar)

module _ (C : Chroma) where
  unfoldable pub add : C.Dir → List Chunk → List Vector → Added C.Dir
  unfolding items_of
  add d [] vectors = added 0 d
  add d (c ∷ cs) vectors =
      if length (c ∷ cs) == length vectors
      then elim (C.upsert d (items_of (c ∷ cs) vectors)) [
        | none ↦ store_error
        | some d' ↦ added (length (c ∷ cs)) d'
      ]
      else value_error

  -- The loop over the hits.
  unfoldable pub filtered : Rounding → ℕ → ℕ → List Hit → List RetrievedChunk
  unfolding threshold retrieved passes
  filtered rounding min_similarity ratio found =
      map (retrieved rounding) (keep (passes (threshold min_similarity ratio found)) found)

  -- `none` is an exception of Chroma.
  unfoldable pub search : Rounding → C.Dir → Vector → ℕ → ℕ → ℕ → Option (List RetrievedChunk)
  unfolding filtered
  search rounding d embedding top_k min_similarity ratio =
      if C.count d == 0 then some [] else elim (C.query d embedding (min top_k (C.count d))) [
        | none ↦ none
        | some found ↦ some (filtered rounding min_similarity ratio found)
      ]
