-- ===== src/Persistence.antt =====
-- src/app/persistence.py: a directory kept as one archive in one object of Google Cloud Storage.
-- GCS, `tarfile` and the file system are parameters; what they may raise is a value. Durations and
-- log lines are not modelled. `_is_precondition_failure` and the `except` branches are.
pub mod Extract
pub mod RoundTrip
pub mod Listing
use llmops_rag_api.Text.{Text, codes, text_eq}
use Prim.Native.Nat.{ℕ}
use llmops_rag_api.Prelude.{
  List, Option, Bool, false, none, ◌<◌, ◌≡◌, true, not, ◌||◌, some, ◌++◌, ◌==◌, if◌then◌else◌,
}

-- A member of a tar archive.
pub record Member : Type 0 where
  pub name : Text
  pub content : Text

abbrev pub Archive : Type 0
Archive = List Member

-- An exception, as far as the program looks at it.
pub record Failure : Type 0 where
  pub code : Option ℕ
  pub type_name : Text
  pub message : Text

-- An upload gives the object a generation, or raises.
pub data Upload : Type 0 where
  uploaded : ℕ → Upload
  refused : Failure → Upload

-- A download gives the payload and its generation.
pub data Download : Type 0 where
  downloaded : ℕ → Archive → Download
  broken : Failure → Download

-- What `blob.exists()` says, or raises.
pub data Presence : Type 0 where
  present absent : Presence
  unreachable : Failure → Presence

-- One object of GCS. `live` is its generation and payload, if it exists.
pub record Gcs : Type 1 where
  pub Bucket : Type 0
  pub live : Bucket → Option (ℕ × Archive)
  pub upload : Bucket → Archive → Option ℕ → Upload × Bucket
  pub exists : Bucket → Presence
  pub download : Bucket → Download

-- GCS counts an object that does not exist as generation 0.
abbrev pub generation_of : Option (ℕ × Archive) → ℕ
generation_of none = 0
generation_of (some (g, p)) = g

-- What the program relies on: generations are not 0, an upload that returns has stored the payload,
-- a conditional one only if the generation was the expected one, and a download gives what is there.
pub record IsGcs (G : Gcs) : Type 0 where
  pub live-positive : (b : G.Bucket) (g : ℕ) (p : Archive) → G.live b ≡ some (g, p) → 0 < g
  pub uploaded-live :
      (b b' : G.Bucket) (p : Archive) (expected : Option ℕ) (g : ℕ)
      → G.upload b p expected ≡ (uploaded g, b')
      → G.live b' ≡ some (g, p)
  pub uploaded-matched :
      (b b' : G.Bucket) (p : Archive) (expected g : ℕ)
      → G.upload b p (some expected) ≡ (uploaded g, b')
      → generation_of (G.live b) ≡ expected
  pub downloaded-live :
      (b : G.Bucket) (g : ℕ) (p : Archive) → G.download b ≡ downloaded g p → G.live b ≡ some (g, p)

-- Directories on disk as archives: `pack` and `unpack` may raise, and `partial` is what an
-- extraction that raises leaves behind.
pub record Tar (Dir : Type 0) : Type 0 where
  pub fresh : Dir
  pub pack : Dir → Option Archive
  pub unpack : Archive → Option Dir
  pub partial : Archive → Dir
  pub size : Archive → ℕ

pub record SnapshotResult : Type 0 where
  pub ok : Bool
  pub detail : Text
  pub bytes_transferred : ℕ
  pub generation : ℕ
  pub conflict : Bool

abbrev pub failed : Text → SnapshotResult
failed detail = record {
  ok = false;
  detail = detail;
  bytes_transferred = 0;
  generation = 0;
  conflict = false;
}

abbrev pub conflicted : SnapshotResult
conflicted = record {
  ok = false;
  detail = codes "generation conflict";
  bytes_transferred = 0;
  generation = 0;
  conflict = true;
}

abbrev pub code_is : Option ℕ → ℕ → Bool
code_is none n = false
code_is (some c) n = c == n

unfoldable pub is_precondition_failure : Failure → Bool
is_precondition_failure e = code_is e.code 412 || text_eq e.type_name (codes "PreconditionFailed")

-- The `except` branch of `save`.
unfoldable pub save_failed : Failure → SnapshotResult
save_failed e =
    if is_precondition_failure e then conflicted else failed (codes "upload failed: " ++ e.message)

abbrev tar_failure : Failure
tar_failure = record { code = none; type_name = codes "TarError"; message = codes "cannot pack" }

module _ (G : Gcs) {Dir : Type 0} (T : Tar Dir) where
  unfoldable pub upload_archive : Archive → Option ℕ → G.Bucket → SnapshotResult × G.Bucket
  upload_archive payload expected b =
      let (answer, b') = G.upload b payload expected in
      elim answer [
        | uploaded g ↦ (
          record {
            ok = true;
            detail = codes "uploaded";
            bytes_transferred = T.size payload;
            generation = g;
            conflict = false;
          },
          b',
        )
        | refused e ↦ (save_failed e, b')
      ]

  -- `save(source_dir, expected_generation)`; a source of `none` does not exist.
  unfoldable pub save : Bool → Option Dir → Option ℕ → G.Bucket → SnapshotResult × G.Bucket
  unfolding upload_archive
  save enabled source expected b =
      if enabled
      then elim source [
        | none ↦ (failed (codes "source directory does not exist"), b)
        | some dir ↦ elim (T.pack dir) [
          | none ↦ (save_failed tar_failure, b)
          | some payload ↦ upload_archive payload expected b
        ]
      ]
      else (failed (codes "disabled"), b)
