-- ===== src/Rag/Chroma.antt =====
-- ChromaDB, which src/app/rag/vectorstore.py calls: an embedded store that keeps one collection in a
-- directory. The program does not implement it, so it is a parameter. A distance is counted in
-- units of 1e-8.
use llmops_rag_api.Text.{Text, text_eq}
use llmops_rag_api.Prelude.{
  List, ℤ, Option, ◌≤ℤ◌, ℕ, ◌≤◌, ◌≡◌, none, some, [], ◌∷◌, if◌then◌else◌, All, length,
}
use llmops_rag_api.Dict.{Dict}

-- The numbers of an embedding, which the program only hands on.
abbrev pub Vector : Type 0
Vector = List ℤ

pub record Item : Type 0 where
  pub id : Text
  pub document : Text
  pub embedding : Vector
  pub metadata : Dict Text

pub record Hit : Type 0 where
  pub item : Item
  pub distance : ℤ

-- `get` is the item under an id. `upsert` may raise (an id twice in one batch, a vector of another
-- width), and so may `query` (a vector of another width, a store that cannot be read): `none`.
pub record Chroma : Type 1 where
  pub Dir : Type 0
  pub empty : Dir
  pub get : Dir → Text → Option Item
  pub upsert : Dir → List Item → Option Dir
  pub count : Dir → ℕ
  pub query : Dir → Vector → ℕ → Option (List Hit)

-- The item of a batch with an id.
unfoldable pub in_batch : Text → List Item → Option Item
in_batch key [] = none
in_batch key (i ∷ items) = if text_eq i.id key then some i else in_batch key items

abbrev pub or_old : Option Item → Option Item → Option Item
or_old (some i) old = some i
or_old none old = old

-- Nearest first.
abbrev pub IsNearestFirst : List Hit → Type 0
IsNearestFirst [] = Unit
IsNearestFirst (h ∷ hs) = All (λ k. h.distance ≤ℤ k.distance) hs × IsNearestFirst hs

-- What the program relies on: an upsert sets the items of its batch and leaves the others, and a
-- query that returns gives at most so many stored items, nearest first.
pub record IsLawful (C : Chroma) : Type 0 where
  pub get-upsert :
      (d : C.Dir) (items : List Item) (d' : C.Dir) (key : Text)
      → C.upsert d items ≡ some d'
      → C.get d' key ≡ or_old (in_batch key items) (C.get d key)
  pub query-length :
      (d : C.Dir) (v : Vector) (n : ℕ) (hits : List Hit)
      → C.query d v n ≡ some hits
      → length hits ≤ n
  pub query-nearest :
      (d : C.Dir) (v : Vector) (n : ℕ) (hits : List Hit)
      → C.query d v n ≡ some hits
      → IsNearestFirst hits
  pub query-stored :
      (d : C.Dir) (v : Vector) (n : ℕ) (hits : List Hit)
      → C.query d v n ≡ some hits
      → All (λ h. C.get d h.item.id ≡ some h.item) hits
