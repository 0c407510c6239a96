-- ===== src/Rag/Snapshot/Loss.antt =====
-- What the next `_save_snapshot` of src/app/rag/pipeline.py does after one that merged: the instance
-- goes on from the generation of the merged snapshot, and its own store is still the one before the merge.
use llmops_rag_api.Rag.Snapshot.{
  Instance, ended, crashed, save_snapshot, Gcs, Chroma, Tar, Text, Chunk, Vector, adopt, Ended,
}
use llmops_rag_api.Prelude.{ℕ, ◌≡◌, refl, inl, inr, Bool, List, Bool-cases}

module _ (G : Gcs) (C : Chroma) (T : Tar C.Dir) (enabled : Bool) (workspace : List Text) where
  adopt-dir :
      (end : Ended) (inst : Instance C.Dir)
      → (adopt G C T enabled workspace end inst).dir ≡ inst.dir
  unfolding adopt
  adopt-dir crashed inst = refl
  adopt-dir (ended r k) inst = elim (Bool-cases r.ok) [ inl e ↦ rw e refl | inr e ↦ rw e refl ]

  pub save_snapshot-dir :
      (others : ℕ → G.Bucket → G.Bucket) (chunks : List Chunk) (vectors : List Vector)
      (inst : Instance C.Dir) (b : G.Bucket)
      → (save_snapshot G C T enabled workspace others chunks vectors inst b).0.1.dir ≡ inst.dir
  unfolding save_snapshot
  save_snapshot-dir others chunks vectors inst b =
      adopt-dir (save_snapshot G C T enabled workspace others chunks vectors inst b).0.0 inst
