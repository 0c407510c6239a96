-- ===== src/Tests/Memory.antt =====
-- A Chroma, a bucket of GCS and a tar in memory, which fulfil what the models ask of them.
use llmops_rag_api.Rag.Chroma.{Chroma, IsLawful, Item, in_batch, or_old}
use llmops_rag_api.Persistence.{
  Gcs, Tar, Archive, Member, Upload, Download, Presence, Failure, uploaded, refused, downloaded,
  broken, present, absent, generation_of, IsGcs,
}
use Prim.Native.Nat.{ℕ}
use llmops_rag_api.Text.{Text, codes, text_eq}
use llmops_rag_api.Prelude.{
  ◌++◌, List, Option, some, suc, ◌<◌, ◌≡◌, refl, sym, ap, ◌⊎◌, inl, inr, none, [], ◌∷◌, arith, ◌==◌,
  if◌then◌else◌, Bool-cases, length, ◌∙◌, All,
}
use llmops_rag_api.Persistence.Extract.{components}
use llmops_rag_api.Persistence.RoundTrip.{IsTar, IsPlain}

in_batch-append :
    (key : Text) (xs ys : List Item)
    → in_batch key (xs ++ ys) ≡ or_old (in_batch key xs) (in_batch key ys)
unfolding in_batch
in_batch-append key [] ys = refl
in_batch-append key (x ∷ xs) ys = elim (Bool-cases (text_eq x.id key)) [
  | inl e ↦ rw e refl
  | inr e ↦ rw e (in_batch-append key xs ys)
]

-- The newest item of an id stands first. Its search finds nothing.
abbrev pub chroma : Chroma
chroma = record {
  Dir = List Item;
  empty = [];
  get = λ d key. in_batch key d;
  upsert = λ d items. some (items ++ d);
  count = length;
  query = λ d v n. some [];
}

pub chroma-IsLawful : IsLawful chroma
chroma-IsLawful = record {
  get-upsert = λ d items d' key e.
      let same : items ++ d ≡ d' = cc e in rw (← same) (in_batch-append key items d);
  query-length = λ d v n hits e. let same : [] ≡ hits = cc e in rw (← same) (omega arith);
  query-nearest = λ d v n hits e. let same : [] ≡ hits = cc e in rw (← same) tt;
  query-stored = λ d v n hits e. let same : [] ≡ hits = cc e in rw (← same) tt;
}

-- The number of uploads so far, and the object; its generation is one more.
abbrev pub Slot : Type 0
Slot = ℕ × Option Archive

abbrev live_of : Slot → Option (ℕ × Archive)
live_of (n, none) = none
live_of (n, some p) = some (suc n, p)

abbrev put : Slot → Archive → Upload × Slot
put (n, o) p = (uploaded (suc (suc n)), (suc n, some p))

abbrev conflict_error : Failure
conflict_error = record { code = some 412; type_name = codes "PreconditionFailed"; message = [] }

abbrev slot_generation : Slot → ℕ
slot_generation (n, none) = 0
slot_generation (n, some p) = suc n

unfoldable pub upload_to : Slot → Archive → Option ℕ → Upload × Slot
upload_to s p none = put s p
upload_to s p (some e) = if slot_generation s == e then put s p else (refused conflict_error, s)

abbrev exists_in : Slot → Presence
exists_in (n, none) = absent
exists_in (n, some p) = present

abbrev download_from : Slot → Download
download_from (n, none) =
    broken (record { code = some 404; type_name = codes "NotFound"; message = [] })
download_from (n, some p) = downloaded (suc n) p

abbrev pub gcs : Gcs
gcs = record {
  Bucket = Slot;
  live = live_of;
  upload = upload_to;
  exists = exists_in;
  download = download_from;
}

live-positive : (b : Slot) (g : ℕ) (p : Archive) → live_of b ≡ some (g, p) → 0 < g
live-positive (n, none) g p e = cc e
live-positive (n, some q) g p e = ground arith

put-live :
    (s b' : Slot) (p : Archive) (g : ℕ) → put s p ≡ (uploaded g, b') → live_of b' ≡ some (g, p)
put-live (n, o) b' p g e =
    let here : ◌≡◌ {A = Slot} (suc n, some p) b' = ap (λ x. x.1) e in
    let generation : suc (suc n) ≡ g = cc (ap (λ x. x.0) e) in rw (← here, ← generation) refl

uploaded-live :
    (b b' : Slot) (p : Archive) (expected : Option ℕ) (g : ℕ)
    → upload_to b p expected ≡ (uploaded g, b')
    → live_of b' ≡ some (g, p)
unfolding upload_to
uploaded-live (n, o) b' p none g e = put-live (n, o) b' p g e
uploaded-live (n, o) b' p (some x) g e = elim (Bool-cases (slot_generation (n, o) == x)) [
  | inl f ↦ put-live (n, o) b' p g (rw (f, upload_to) at e)
  | inr f ↦ absurd (clash (rw (f, upload_to) at e))
]
  where
    clash : ◌≡◌ {A = Upload × Slot} (refused conflict_error, (n, o)) (uploaded g, b') → ⊥
    clash k = cc

uploaded-matched :
    (b b' : Slot) (p : Archive) (expected g : ℕ)
    → upload_to b p (some expected) ≡ (uploaded g, b')
    → slot_generation b ≡ expected
unfolding upload_to
uploaded-matched (n, o) b' p x g e = elim (Bool-cases (slot_generation (n, o) == x)) [
  | inl f ↦ ground arith
  | inr f ↦ absurd (clash (rw (f, upload_to) at e))
]
  where
    clash : ◌≡◌ {A = Upload × Slot} (refused conflict_error, (n, o)) (uploaded g, b') → ⊥
    clash k = cc

downloaded-live :
    (b : Slot) (g : ℕ) (p : Archive) → download_from b ≡ downloaded g p → live_of b ≡ some (g, p)
downloaded-live (n, none) g p e = cc e
downloaded-live (n, some q) g p e = cc e

slot_live : (b : Slot) → generation_of (live_of b) ≡ slot_generation b
slot_live (n, none) = refl
slot_live (n, some q) = refl

abbrev member : Text → Text → Member
member name content = record { name = name; content = content }

abbrev pack_item : Item → Option Archive → Option Archive
pack_item i none = none
pack_item i (some rest) = elim i.embedding [
  | _ ∷ _ ↦ none
  | [] ↦ elim i.metadata [
    | _ ∷ _ ↦ none
    | [] ↦ some (member (codes "id") i.id ∷ member (codes "document") i.document ∷ rest)
  ]
]

unfoldable pub pack_items : List Item → Option Archive
pack_items [] = some []
pack_items (i ∷ is) = let rest = pack_items is in pack_item i rest

abbrev bare : Text → Text → Item
bare id document = record { id = id; document = document; embedding = []; metadata = [] }

abbrev bare_first : Text → Text → Option (List Item) → Option (List Item)
bare_first id document none = none
bare_first id document (some is) = some (bare id document ∷ is)

unfoldable pub read_items : Archive → Option (List Item)
read_items [] = some []
read_items (m ∷ []) = none
read_items (m ∷ n ∷ ms) = bare_first m.content n.content (read_items ms)

-- An item without an embedding and metadata is two files of the directory; others it cannot pack.
abbrev pub tar : Tar (List Item)
tar = record {
  fresh = [];
  pack = pack_items;
  unpack = read_items;
  partial = λ p. [];
  size = length;
}

List-cases : {A : Type 0} (xs : List A) → (xs ≡ []) ⊎ ((y : A) × (ys : List A) × (xs ≡ y ∷ ys))
List-cases [] = inl refl
List-cases (x ∷ xs) = inr (x, xs, refl)

pack_item-read :
    (i : Item) (rest : Option Archive) (p : Archive)
    → pack_item i rest ≡ some p
    → (q : Archive) × (rest ≡ some q)
      × (i ≡ bare i.id i.document)
      × (p ≡ member (codes "id") i.id ∷ member (codes "document") i.document ∷ q)
pack_item-read i none p e = cc e
pack_item-read i (some q) p e = elim (List-cases i.embedding) [
  | inr (x, xs, f) ↦ absurd (clash (rw f at e))
  | inl f ↦ elim (List-cases i.metadata) [
    | inr (x, xs, k) ↦ absurd (clash (rw k at (rw f at e)))
    | inl k ↦ (
      q,
      refl,
      (λ j. record i { embedding = f j; metadata = k j }),
      sym (some_same (rw k at (rw f at e))),
    )
  ]
]
  where
    clash : none ≡ some p → ⊥
    clash x = cc

    some_same : {a b : Archive} → some a ≡ some b → a ≡ b
    some_same x = cc

read-pack : (d : List Item) (p : Archive) → pack_items d ≡ some p → read_items p ≡ some d
unfolding pack_items read_items
read-pack [] p e = let same : [] ≡ p = cc e in rw (← same) refl
read-pack (i ∷ is) p e =
    let (q, packed, plain, same) = pack_item-read i (pack_items is) p e in
    rw same (rw (read-pack is q packed) (ap (λ x. some (x ∷ is)) (sym plain)))

packed-IsPlain : (d : List Item) (p : Archive) → pack_items d ≡ some p → All (λ m. IsPlain m.name) p
unfolding pack_items components text_eq
packed-IsPlain [] p e = let same : [] ≡ p = cc e in rw (← same) tt
packed-IsPlain (i ∷ is) p e =
    let (q, packed, plain, same) = pack_item-read i (pack_items is) p e in
    rw same ((refl, (refl, tt)), ((refl, (refl, tt)), packed-IsPlain is q packed))

pub tar-IsTar : IsTar tar
tar-IsTar = record { unpack-pack = read-pack; pack-plain = packed-IsPlain }

pub gcs-IsGcs : IsGcs gcs
gcs-IsGcs = record {
  live-positive = live-positive;
  uploaded-live = uploaded-live;
  uploaded-matched = λ b b' p expected g e. slot_live b ∙ uploaded-matched b b' p expected g e;
  downloaded-live = downloaded-live;
}
