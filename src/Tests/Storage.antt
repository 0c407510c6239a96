-- ===== src/Tests/Storage.antt =====
-- Runs of the vector store and the snapshot functions of src/app/rag/vectorstore.py and
-- src/app/persistence.py.
use llmops_rag_api.Tests.Memory.{
  chroma, chroma-IsLawful, gcs, gcs-IsGcs, tar, tar-IsTar, Slot, pack_items, read_items, upload_to,
}
use llmops_rag_api.Rag.VectorStore.{
  search, add, RetrievedChunk, retrieved, similarity_of, items_of, threshold, passes,
}
use llmops_rag_api.Rag.Chroma.{Chroma, IsLawful, Item, Hit, in_batch, IsNearestFirst}
use Prim.Native.Nat.{ℕ}
use llmops_rag_api.Text.{Text, text_eq, codes}
use llmops_rag_api.Prelude.{
  List, map, leb_ℤ, none, pos, zero, suc, ◌≤◌, ◌≡◌, refl, ◌≢◌, ◌⊎◌, true, false, some, [], ◌∷◌,
  arith, take, All, length, length-take-le, ap, take_all, Option,
}
use llmops_rag_api.Persistence.{Archive, save}
use llmops_rag_api.Persistence.Extract.{restore, unsafe_member, destination}
use llmops_rag_api.Rag.Chunking.{Chunk}
use llmops_rag_api.Rounding.{rounding_half_up}
use llmops_rag_api.Rag.VectorStore.Holds.{Holds, Keeps, add-Holds}
use llmops_rag_api.Rag.VectorStore.Search.{search-best, search-nearest}
use llmops_rag_api.Persistence.RoundTrip.{restore-save, AllInside, restore-ok}

abbrev stored : Text → Item
stored id = record {
  id = id;
  document = id;
  embedding = [];
  metadata = (codes "doc_id", codes "doc") ∷ [];
}

abbrev hit : Text → ℕ → Hit
hit id distance = record { item = stored id; distance = pos distance }

-- Three chunks, at the distances 0.1, 0.3 and 0.9 of any query.
abbrev pub hits : List Hit
hits = hit (codes "a") 10_000_000 ∷ hit (codes "b") 30_000_000 ∷ hit (codes "c") 90_000_000 ∷ []

-- A store that nothing can be added to.
abbrev pub fixed : Chroma
fixed = record {
  Dir = Unit;
  empty = tt;
  get = λ d key. in_batch key (map (λ (h : Hit). h.item) hits);
  upsert = λ d items. none;
  count = λ d. 3;
  query = λ d v n. some (take n hits);
}

pub fixed-IsLawful : IsLawful fixed
unfolding in_batch text_eq
fixed-IsLawful = record {
  get-upsert = λ d items d' key e. cc e;
  query-length =
      λ d v n hs e. let same : take n hits ≡ hs = cc e in rw (← same) (length-take-le n hits);
  query-nearest = λ d v n hs e. let same : take n hits ≡ hs = cc e in rw (← same) (nearest n);
  query-stored = λ d v n hs e. let same : take n hits ≡ hs = cc e in rw (← same) (found n);
}
  where
    nearest : (n : ℕ) → IsNearestFirst (take n hits)
    nearest zero = tt
    nearest (suc zero) = (tt, tt)
    nearest (suc (suc zero)) = ((omega arith, tt), (tt, tt))
    nearest (suc (suc (suc n))) =
        rw (take_all {A = Hit} n [] (omega arith))
          ((omega arith, (omega arith, tt)), ((omega arith, tt), (tt, tt)))

    found :
        (n : ℕ)
        → All (λ h. in_batch h.item.id (map (λ (h : Hit). h.item) hits) ≡ some h.item) (take n hits)
    found zero = tt
    found (suc zero) = (refl, tt)
    found (suc (suc zero)) = (refl, (refl, tt))
    found (suc (suc (suc n))) =
        rw (take_all {A = Hit} n [] (omega arith)) (refl, (refl, (refl, tt)))

-- The threshold 0.25 and the ratio 0.9: the bar is 0.81, and only the first chunk passes.
abbrev results : Option (List RetrievedChunk)
results = search fixed rounding_half_up tt [] 4 25_000_000 90_000_000

search-nearest_example :
    (rs : List RetrievedChunk) × (results ≡ some rs)
    × (rs ≡ map (retrieved rounding_half_up) (take (length rs) (take 3 hits)))
    × (length rs ≤ 4)
search-nearest_example =
    search-nearest fixed fixed-IsLawful rounding_half_up tt [] 4 25_000_000 90_000_000 (take 3 hits)
      (λ e. absurd (omega arith)) refl

one_result : results ≡ some (retrieved rounding_half_up (hit (codes "a") 10_000_000) ∷ [])
unfolding search threshold passes similarity_of
one_result = refl

search-best_example :
    ((leb_ℤ (pos 25_000_000) (similarity_of (pos 10_000_000)) ≡ true)
      × (rest : List RetrievedChunk) × (results
          ≡ some (retrieved rounding_half_up (hit (codes "a") 10_000_000) ∷ rest)))
    ⊎ ((leb_ℤ (pos 25_000_000) (similarity_of (pos 10_000_000)) ≡ false) × (results ≡ some []))
search-best_example =
    search-best fixed fixed-IsLawful rounding_half_up tt [] 4 25_000_000 90_000_000
      (hit (codes "a") 10_000_000) (hit (codes "b") 30_000_000 ∷ hit (codes "c") 90_000_000 ∷ [])
      (λ e. absurd (omega arith)) (omega arith) refl

abbrev doc_chunk : Text → Chunk
doc_chunk id = record {
  chunk_id = id;
  doc_id = codes "doc";
  text = codes "text";
  index = 0;
  metadata = [];
}

abbrev first_of : Text → ℕ
first_of [] = 0
first_of (c ∷ s) = c

apart : codes "p" ≢ codes "q"
apart e = let k : 112 ≡ 113 = ap first_of e in absurd (omega (arith, k))

abbrev old_items : List Item
old_items = stored (codes "x") ∷ []

abbrev new_item : Text → Item
new_item id = record { id = id; document = codes "text"; embedding = []; metadata = [] }

abbrev after_add : List Item
after_add = new_item (codes "p") ∷ new_item (codes "q") ∷ old_items

add-Holds_example :
    Holds chroma after_add (doc_chunk (codes "p") ∷ doc_chunk (codes "q") ∷ [])
    × Keeps chroma old_items after_add
    × ((key : Text)
        → All (λ c. key ≢ c.chunk_id) (doc_chunk (codes "p") ∷ doc_chunk (codes "q") ∷ [])
        → chroma.get after_add key ≡ chroma.get old_items key)
unfolding add items_of
add-Holds_example =
    add-Holds chroma chroma-IsLawful old_items (doc_chunk (codes "p") ∷ doc_chunk (codes "q") ∷ [])
      ([] ∷ [] ∷ []) {n = 2} {d' = after_add} ((apart, tt), (tt, tt)) refl

abbrev data_dir : List Text
data_dir = codes "app" ∷ codes "data" ∷ []

abbrev saved_dir : List Item
saved_dir = new_item (codes "p") ∷ []

abbrev saved_archive : Archive
saved_archive =
    record { name = codes "id"; content = codes "p" }
    ∷ record { name = codes "document"; content = codes "text" }
    ∷ []

abbrev blank_slot : Slot
blank_slot = (0, none)

restore-ok_example :
    let (r, after) = restore gcs tar true data_dir none (4, some saved_archive) in
    (d : List Item) × (p : Archive) × (after ≡ some d)
    × (gcs.live (4, some saved_archive) ≡ some (r.generation, p))
    × (tar.unpack p ≡ some d)
    × AllInside data_dir p
unfolding restore unsafe_member read_items text_eq destination
restore-ok_example = restore-ok gcs gcs-IsGcs tar true data_dir none (4, some saved_archive) refl

restore-save_example :
    let (saved, b') = save gcs tar true (some saved_dir) (some 0) blank_slot in
    let (r, after) = restore gcs tar true data_dir none b' in
    (r.ok ≡ true) × (r.generation ≡ saved.generation) × (after ≡ some saved_dir)
unfolding save pack_items upload_to
restore-save_example =
    restore-save gcs gcs-IsGcs tar tar-IsTar (some saved_dir) (some 0) blank_slot data_dir none 2
      saved_archive refl refl refl
