-- ===== src/Http/Upload.antt =====
-- `ingest_file` of src/app/main.py, up to the call of the pipeline: the checks of an uploaded file.
-- `bytes.decode("utf-8")` is a parameter, and so is `str.lower`.
use llmops_rag_api.Prelude.{
  ℕ, Bool, Option, List, ◌-◌, ◌≤◌, ◌<◌, ◌≡◌, ◌≢◌, not, ◌&&◌, ◌||◌, none, some, [], ◌∷◌,
  if◌then◌else◌, leb, ltb, length, drop, false, Bool-cases, refl, ap, inl, inr, arith, Option-cases,
}
use llmops_rag_api.Text.{Text, strip, codes, is_empty, text_eq}
use llmops_rag_api.Rag.Pipeline.{Settings}
use llmops_rag_api.Rag.Pipeline.Ingest.{Document, prepare, chunks_of, put_document}
use llmops_rag_api.Rag.Chunking.{
  chunk_document, split_text, Chunk, make_chunks, resolve_id, split_normal, normalize,
}

-- An `HTTPException` with its status, or the document that goes to the pipeline.
pub data FileCheck : Type 0 where
  rejected : ℕ → FileCheck
  accepted : Document → FileCheck

-- `s.endswith(t)`
unfoldable pub ends_with : Text → Text → Bool
ends_with s t = leb (length t) (length s) && text_eq (drop (length s - length t) s) t

-- `filename.lower().endswith(ALLOWED_UPLOAD_SUFFIXES)`
unfoldable pub is_allowed : Text → Bool
unfolding ends_with
is_allowed name =
    ends_with name (codes ".txt")
    || (ends_with name (codes ".md")
        || (ends_with name (codes ".markdown") || ends_with name (codes ".text")))

-- `file.filename or "upload.txt"`
abbrev pub filename_of : Option Text → Text
filename_of none = codes "upload.txt"
filename_of (some []) = codes "upload.txt"
filename_of (some (c ∷ s)) = c ∷ s

unfoldable pub check_file :
    (Text → Text) → (List ℕ → Option Text) → Settings → Option Text → List ℕ → FileCheck
unfolding is_allowed
check_file lower decode settings filename raw =
    let name = filename_of filename in
    if not (is_allowed (lower name))
    then rejected 415
    else if ltb settings.max_ingest_chars (length raw)
    then rejected 413
    else elim (decode raw) [
      | none ↦ rejected 400
      | some text ↦
          if is_empty (strip text)
          then rejected 400
          else accepted
              (record { text = text; doc_id = none; metadata = (codes "source", name) ∷ [] })
    ]

abbrev text_of : FileCheck → Text
text_of (rejected n) = []
text_of (accepted doc) = doc.text

chunks_of-some :
    (sha256 : Text → Text) (settings : Settings) (doc : Document)
    → ltb settings.max_ingest_chars (length doc.text) ≡ false
    → leb settings.chunk_size settings.chunk_overlap ≡ false
    → (cs : List Chunk) × (chunks_of sha256 settings doc ≡ some cs)
unfolding chunks_of chunk_document split_text
chunks_of-some sha256 settings doc e f = rw e (
    rw f (
      make_chunks (resolve_id sha256 (some (resolve_id sha256 doc.doc_id doc.text)) doc.text)
          doc.metadata 0
          (split_normal (normalize doc.text) settings.chunk_size settings.chunk_overlap),
      refl,
    ))

put_document-some :
    (sha256 : Text → Text) (settings : Settings) (id : Text) (cs : List Chunk)
    → put_document sha256 settings id (some cs) (some ([], [])) ≢ none
put_document-some sha256 settings id [] h = cc h
put_document-some sha256 settings id (c ∷ cs) h = cc h

module _ (lower : Text → Text) (decode : List ℕ → Option Text)
    (shorter : (raw : List ℕ) (t : Text) → decode raw ≡ some t → length t ≤ length raw) where
  check_file-fits :
      (settings : Settings) (filename : Option Text) (raw : List ℕ) (doc : Document)
      → check_file lower decode settings filename raw ≡ accepted doc
      → length doc.text ≤ settings.max_ingest_chars
  unfolding check_file
  check_file-fits settings filename raw doc e =
      elim (Bool-cases (not (is_allowed (lower (filename_of filename))))) [
        | inl f ↦ absurd (clash (rw (f, check_file) at e))
        | inr f ↦ elim (Bool-cases (ltb settings.max_ingest_chars (length raw))) [
          | inl k ↦ absurd (clash (rw (k, check_file) at (rw (f, check_file) at e)))
          | inr k ↦ elim (Option-cases (decode raw)) [
            | inl x ↦
                absurd
                  (clash (rw (x, check_file) at (rw (k, check_file) at (rw (f, check_file) at e))))
            | inr (text, x) ↦ elim (Bool-cases (is_empty (strip text))) [
              | inl y ↦ absurd (
                  clash (
                    rw y at
                      (rw (x, check_file) at (rw (k, check_file) at (rw (f, check_file) at e)))))
              | inr y ↦
                  let same : text ≡ doc.text = ap text_of (
                    rw y at
                      (rw (x, check_file) at (rw (k, check_file) at (rw (f, check_file) at e)))) in
                  let fits : length raw ≤ settings.max_ingest_chars = ground arith in
                  omega (arith, shorter raw text x, fits, ap length same)
            ]
          ]
        ]
      ]
    where
      clash : {n : ℕ} → rejected n ≡ accepted doc → ⊥
      clash h = cc

  -- The pipeline never refuses the document of a file that the endpoint accepts: a text has no more
  -- characters than its file has bytes, and the overlap of the settings is below the chunk size.
  pub check_file-prepare :
      (sha256 : Text → Text) (settings : Settings) (filename : Option Text) (raw : List ℕ)
      (doc : Document)
      → settings.chunk_overlap < settings.chunk_size
      → check_file lower decode settings filename raw ≡ accepted doc
      → prepare sha256 settings (doc ∷ []) ≢ none
  unfolding prepare
  check_file-prepare sha256 settings filename raw doc l e h =
      let fits = check_file-fits settings filename raw doc e in
      let small : ltb settings.max_ingest_chars (length doc.text) ≡ false = ground arith in
      let lapping : leb settings.chunk_size settings.chunk_overlap ≡ false = ground arith in
      let id = resolve_id sha256 doc.doc_id doc.text in
      let cut = chunks_of-some sha256 settings doc small lapping in
      put_document-some sha256 settings id cut.0 (rw (cut.1, prepare) at h)
