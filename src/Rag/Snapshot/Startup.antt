-- ===== src/Rag/Snapshot/Startup.antt =====
-- `build_pipeline` of src/app/dependencies.py, as far as it makes the store and the generation of an instance: the snapshot
-- is restored before Chroma opens the directory, and its generation is adopted if that succeeded.
use llmops_rag_api.Prelude.{
  Bool, Bool-cases, true, Option, none, some, List, ◌≡◌, inl, inr, if◌then◌else◌, arith, ◌⊎◌, refl,
  ◌≢◌, false,
}
use llmops_rag_api.Text.{Text}
use llmops_rag_api.Persistence.{Gcs, Tar, Archive, IsGcs}
use llmops_rag_api.Persistence.Extract.{restore}
use llmops_rag_api.Rag.Chroma.{Chroma}
use llmops_rag_api.Rag.Snapshot.{Instance}
use llmops_rag_api.Persistence.RoundTrip.{restore-ok}

module _ (G : Gcs) (C : Chroma) (T : Tar C.Dir) where
  -- Chroma makes an empty store where there is no directory.
  abbrev pub opened : Option C.Dir → C.Dir
  opened none = C.empty
  opened (some d) = d

  unfoldable pub build_instance : Bool → List Text → Option C.Dir → G.Bucket → Instance C.Dir
  build_instance enabled target before b =
      if enabled
      then (let (r, after) = restore G T enabled target before b in
          record { dir = opened after; snapshot_generation = if r.ok then r.generation else 0 })
      else record { dir = opened before; snapshot_generation = 0 }

  -- An instance that starts either restored the snapshot: then it has the very store that the archive of the
  -- object unpacks to, and holds the generation of the object, so that its first save meets what the merge
  -- of snapshots asks of the instance. Or snapshots are off or the restore did not succeed: then it holds
  -- generation 0, which no object has.
  pub build_instance_synced :
      IsGcs G
      → (enabled : Bool) (target : List Text) (before : Option C.Dir) (b : G.Bucket)
      → let inst = build_instance enabled target before b in
        let (r, after) = restore G T enabled target before b in
        ((enabled ≡ true)
          × (r.ok ≡ true)
          × (p : Archive) × (G.live b ≡ some (inst.snapshot_generation, p))
          × (T.unpack p ≡ some inst.dir))
        ⊎ (((enabled ≡ false) ⊎ (r.ok ≡ false))
            × (inst.snapshot_generation ≡ 0)
            × ((p : Archive) → G.live b ≢ some (inst.snapshot_generation, p)))
  unfolding build_instance
  build_instance_synced L enabled target before b = elim (Bool-cases enabled) [
    | inr e ↦ rw e (inr (inl refl, refl, no_object))
    | inl e ↦ rw e (elim (Bool-cases (restore G T true target before b).0.ok) [
      | inr f ↦ rw f (inr (inr refl, refl, no_object))
      | inl f ↦
          let (d, q, put, live, unpacks, inside) = restore-ok G L T true target before b f in
          rw f (rw put (inl (refl, refl, q, live, unpacks)))
    ])
  ]
    where
      no_object : (p : Archive) → G.live b ≢ some (0, p)
      no_object p held = omega (arith, L.live-positive b 0 p held)
