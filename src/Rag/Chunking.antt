-- ===== src/Rag/Chunking.antt =====
-- src/app/rag/chunking.py. A text is the list of its code points. The two regular expressions are
-- written out as scans, the hash is a parameter.
pub mod Bounds
pub mod Pieces
pub mod Coverage
pub mod HardSplit
pub mod Ids
use llmops_rag_api.Text.{Text, strip, is_space, is_empty, codes, decimal}
use Prim.Native.Nat.{ℕ}
use mathlib.Core.Option.{Option}
use llmops_rag_api.Prelude.{
  Bool, List, take, zero, suc, ◌+◌, ◌-◌, max, false, not, ◌||◌, none, some, [], ◌∷◌, ◌++◌, map,
  ◌==◌, if◌then◌else◌, drop, length, keep, leb, ltb,
}
use llmops_rag_api.Dict.{Dict, set}
use mathlib.Core.Option

pub record Chunk : Type 0 where
  pub chunk_id : Text
  pub doc_id : Text
  pub text : Text
  pub index : ℕ
  pub metadata : Dict Text

abbrev pub newline : ℕ
newline = 10

-- `text.replace("\r\n", "\n").replace("\r", "\n")`
unfoldable pub unify_newlines : Text → Text
unify_newlines [] = []
unify_newlines (c ∷ []) = (if c == 13 then newline else c) ∷ []
unify_newlines (c ∷ d ∷ s) =
    let rest = unify_newlines (d ∷ s) in
    if c == 13 then (if d == newline then rest else newline ∷ rest) else c ∷ rest

abbrev pub is_blank : ℕ → Bool
is_blank c = c == 32 || c == 9

abbrev pub starts_blank : Text → Bool
starts_blank [] = false
starts_blank (c ∷ _) = is_blank c

-- `re.compile(r"[ \t]+").sub(" ", text)`: of a run of blanks, the last becomes the space.
unfoldable pub squeeze_blanks : Text → Text
squeeze_blanks [] = []
squeeze_blanks (c ∷ s) =
    let rest = squeeze_blanks s in
    if is_blank c then (if starts_blank s then rest else 32 ∷ rest) else c ∷ rest

unfoldable pub normalize : Text → Text
unfolding unify_newlines squeeze_blanks strip is_space
normalize text = strip (squeeze_blanks (unify_newlines text))

-- What `\s*\n` takes of a text, if it fits: up to the last newline of the run of white space.
unfoldable pub blank_line : Text → Option ℕ
unfolding is_space
blank_line [] = none
blank_line (c ∷ s) =
    let rest = blank_line s in
    if is_space c
    then elim rest [ some n ↦ some (suc n) | none ↦ if c == newline then some 1 else none ]
    else none

abbrev pub cons_head : ℕ → List Text → List Text
cons_head c [] = (c ∷ []) ∷ []
cons_head c (p ∷ ps) = (c ∷ p) ∷ ps

-- How much of the text `s` a separator that begins with `c` takes.
unfoldable pub separator : ℕ → Text → Option ℕ
unfolding blank_line
separator c s = if c == newline then blank_line s else none

-- `re.compile(r"\n\s*\n").split(text)`; the number counts what is left of the running separator.
unfoldable pub split_paragraphs : ℕ → Text → List Text
unfolding separator
split_paragraphs n [] = [] ∷ []
split_paragraphs (suc n) (c ∷ s) = split_paragraphs n s
split_paragraphs zero (c ∷ s) = elim (separator c s) [
  | some n ↦ [] ∷ split_paragraphs n s
  | none ↦ cons_head c (split_paragraphs zero s)
]

-- `text[i : i + size]` for i = 0, step, 2 * step, … below the length; the rounds bound the list.
unfoldable pub windows : ℕ → ℕ → ℕ → Text → List Text
windows zero size step s = []
windows (suc rounds) size step [] = []
windows (suc rounds) size step (c ∷ s) =
    take size (c ∷ s) ∷ windows rounds size step (drop step (c ∷ s))

-- Pieces are never empty here, since `size` is positive wherever the function is called.
unfoldable pub hard_split : Text → ℕ → ℕ → List Text
unfolding windows
hard_split text size overlap = windows (length text) size (max 1 (size - overlap)) text

abbrev pub blank_lines : Text
blank_lines = newline ∷ newline ∷ []

-- `buffer[-chunk_overlap:] if chunk_overlap else ""`
unfoldable pub tail_of : Text → ℕ → Text
tail_of buffer overlap = if overlap == 0 then [] else drop (length buffer - overlap) buffer

-- A full buffer is put away, and its tail opens the next one.
unfoldable pub carry : ℕ → Text → Text → Text
unfolding tail_of strip is_space
carry overlap buffer paragraph =
    let tail = tail_of buffer overlap in
    if is_empty tail then paragraph else strip (tail ++ (blank_lines ++ paragraph))

-- `f"{buffer}\n\n{paragraph}" if buffer else paragraph`
unfoldable pub joined : Text → Text → Text
joined buffer paragraph =
    if is_empty buffer then paragraph else buffer ++ (blank_lines ++ paragraph)

-- `if buffer: chunks.append(buffer)`
unfoldable pub flush : Text → List Text
flush [] = []
flush (c ∷ s) = (c ∷ s) ∷ []

-- One round of the loop: the chunks that it appends, and the buffer after it.
unfoldable pub pack_step : ℕ → ℕ → Text → Text → List Text × Text
unfolding hard_split carry joined flush
pack_step size overlap buffer paragraph =
    if is_empty paragraph
    then ([], buffer)
    else if ltb size (length paragraph)
    then (flush buffer ++ hard_split paragraph size overlap, [])
    else if leb (length (joined buffer paragraph)) size
    then ([], joined buffer paragraph)
    else (buffer ∷ [], carry overlap buffer paragraph)

unfoldable pub pack : ℕ → ℕ → Text → List Text → List Text
unfolding pack_step
pack size overlap buffer [] = flush buffer
pack size overlap buffer (paragraph ∷ rest) =
    let (out, after) = pack_step size overlap buffer (strip paragraph) in
    out ++ pack size overlap after rest

-- `[c for c in (chunk.strip() for chunk in chunks) if c]`
unfoldable pub strip_all : List Text → List Text
strip_all chunks = keep (λ c. not (is_empty c)) (map strip chunks)

unfoldable pub split_normal : Text → ℕ → ℕ → List Text
unfolding pack strip_all
split_normal text size overlap =
    if is_empty text
    then []
    else if leb (length text) size
    then text ∷ []
    else strip_all (pack size overlap [] (split_paragraphs 0 text))

-- `none` is the `ValueError` for an overlap that is not below the size.
unfoldable pub split_text : Text → ℕ → ℕ → Option (List Text)
unfolding split_normal
split_text text size overlap =
    if leb size overlap then none else some (split_normal (normalize text) size overlap)

-- `hashlib.sha256(text.encode("utf-8")).hexdigest()[:16]`, over the full digest.
unfoldable pub content_hash : (Text → Text) → Text → Text
content_hash sha256 text = take 16 (sha256 text)

-- `doc_id or f"doc-{content_hash(text)}"`
unfoldable pub resolve_id : (Text → Text) → Option Text → Text → Text
unfolding content_hash
resolve_id sha256 none text = codes "doc-" ++ content_hash sha256 text
resolve_id sha256 (some []) text = codes "doc-" ++ content_hash sha256 text
resolve_id sha256 (some (c ∷ s)) text = c ∷ s

-- `f"{doc_id}::{index}"`
unfoldable pub make_id : Text → ℕ → Text
make_id doc_id index = doc_id ++ (codes "::" ++ decimal index)

unfoldable pub make_chunk : Text → Dict Text → ℕ → Text → Chunk
unfolding make_id
make_chunk doc_id metadata index piece = record {
  chunk_id = make_id doc_id index;
  doc_id = doc_id;
  text = piece;
  index = index;
  metadata = set (codes "chunk_index") (decimal index) (set (codes "doc_id") doc_id metadata);
}

-- `for index, piece in enumerate(pieces)`
unfoldable pub make_chunks : Text → Dict Text → ℕ → List Text → List Chunk
unfolding make_chunk
make_chunks doc_id metadata index [] = []
make_chunks doc_id metadata index (piece ∷ pieces) =
    make_chunk doc_id metadata index piece ∷ make_chunks doc_id metadata (index + 1) pieces

unfoldable pub chunk_document :
    (Text → Text) → Text → Option Text → Dict Text → ℕ → ℕ → Option (List Chunk)
unfolding make_chunks resolve_id
chunk_document sha256 text doc_id metadata size overlap =
    Option.map (make_chunks (resolve_id sha256 doc_id text) metadata 0)
      (split_text text size overlap)
