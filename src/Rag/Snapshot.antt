-- ===== src/Rag/Snapshot.antt =====
-- `_save_snapshot` of src/app/rag/pipeline.py: the upload of the store after an ingest, and the
-- replay of its chunks on a snapshot that another instance wrote meanwhile. What the other
-- instances do to the object before the n-th call of this one is the parameter `others`.
pub mod Merge
pub mod Loss
pub mod Startup
use llmops_rag_api.Rag.VectorStore.{value_error, store_error, added, add}
use llmops_rag_api.Rag.Chroma.{Chroma, Vector}
use llmops_rag_api.Persistence.{Gcs, Tar, SnapshotResult, save}
use Prim.Native.Nat.{ℕ}
use llmops_rag_api.Prelude.{Bool, zero, suc, ◌+◌, ◌*◌, Option, none, some, List, if◌then◌else◌}
use llmops_rag_api.Text.{Text}
use llmops_rag_api.Rag.Chunking.{Chunk}
use llmops_rag_api.Persistence.Extract.{restore}

abbrev pub snapshot_merge_attempts : ℕ
snapshot_merge_attempts = 3

-- The state of a pipeline that the upload reads and writes.
pub record Instance (D : Type 0) : Type 0 where
  pub dir : D
  pub snapshot_generation : ℕ

-- One round of the loop: `break`, an exception of the merged store, or the outcome of the next save.
pub data Round : Type 0 where
  stopped raised : Round
  saved : SnapshotResult → Round

-- The end of the loop. An exception of the store goes on to the caller.
pub data Ended : Type 0 where
  crashed : Ended
  ended : SnapshotResult → ℕ → Ended

module _ (G : Gcs) (C : Chroma) (T : Tar C.Dir) (enabled : Bool) (workspace : List Text) where
  -- `merged.add(chunks, vectors)` and the conditional save of the workspace.
  unfoldable pub replay :
      (ℕ → G.Bucket → G.Bucket)
      → ℕ
      → List Chunk
      → List Vector
      → ℕ
      → C.Dir
      → G.Bucket
      → Round × G.Bucket
  replay others n chunks vectors generation theirs b = elim (add C theirs chunks vectors) [
    | value_error ↦ (raised, b)
    | store_error ↦ (raised, b)
    | added _ merged ↦
        let (outcome, b') = save G T enabled (some merged) (some generation) (others n b) in
        (saved outcome, b')
  ]

  -- `theirs.ok`, and what the workspace then holds.
  abbrev pub workspace_of : SnapshotResult × Option C.Dir → Option (ℕ × C.Dir)
  workspace_of (r, none) = none
  workspace_of (r, some d) = if r.ok then some (r.generation, d) else none

  unfoldable pub merge_round :
      (ℕ → G.Bucket → G.Bucket) → ℕ → List Chunk → List Vector → G.Bucket → Round × G.Bucket
  unfolding replay
  merge_round others n chunks vectors b =
      elim (workspace_of (restore G T enabled workspace none (others n b))) [
        | none ↦ (stopped, others n b)
        | some (generation, theirs) ↦
            replay others (n + 1) chunks vectors generation theirs (others n b)
      ]

  -- The `while` loop, with the rounds that are left.
  unfoldable pub merge_loop :
      (ℕ → G.Bucket → G.Bucket)
      → ℕ
      → ℕ
      → List Chunk
      → List Vector
      → SnapshotResult
      → G.Bucket
      → Ended × G.Bucket
  unfolding merge_round
  merge_loop others zero attempts chunks vectors outcome b = (ended outcome attempts, b)
  merge_loop others (suc left) attempts chunks vectors outcome b =
      let (next, b') = merge_round others (1 + 2 * attempts) chunks vectors b in
      let go = elim next as (λ _. Ended × G.Bucket) [
        | stopped ↦ (ended outcome (attempts + 1), b')
        | raised ↦ (crashed, b')
        | saved outcome' ↦ merge_loop others left (attempts + 1) chunks vectors outcome' b'
      ] in
      if outcome.conflict then go else (ended outcome attempts, b)

  -- `self._snapshot_generation = outcome.generation` if the outcome is a success.
  unfoldable pub adopt : Ended → Instance C.Dir → Instance C.Dir
  adopt crashed inst = inst
  adopt (ended outcome attempts) inst =
      if outcome.ok then record inst { snapshot_generation = outcome.generation } else inst

  unfoldable pub save_snapshot :
      (ℕ → G.Bucket → G.Bucket)
      → List Chunk
      → List Vector
      → Instance C.Dir
      → G.Bucket
      → (Ended × Instance C.Dir) × G.Bucket
  unfolding merge_loop adopt
  save_snapshot others chunks vectors inst b =
      let (outcome, b1) =
        save G T enabled (some inst.dir) (some inst.snapshot_generation) (others 0 b) in
      let (end, b2) = merge_loop others snapshot_merge_attempts 0 chunks vectors outcome b1 in
      ((end, adopt end inst), b2)
