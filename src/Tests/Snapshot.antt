-- ===== src/Tests/Snapshot.antt =====
-- Two instances and one snapshot: runs of src/app/persistence.py and src/app/rag/pipeline.py.
use llmops_rag_api.Tests.Memory.{
  chroma, gcs, tar, Slot, pack_items, upload_to, read_items, gcs-IsGcs, tar-IsTar, chroma-IsLawful,
}
use llmops_rag_api.Rag.Snapshot.{Instance, Ended, save_snapshot, ended}
use llmops_rag_api.Rag.Chunking.{Chunk}
use Prim.Native.Nat.{ℕ}
use llmops_rag_api.Text.{Text, codes, text_eq}
use llmops_rag_api.Prelude.{
  List, some, zero, suc, ◌≡◌, refl, true, [], ◌∷◌, ap, false, none, arith, inl, inr, Bool, ◌≢◌, ◌⊎◌,
}
use llmops_rag_api.Rag.Chroma.{Item, in_batch}
use llmops_rag_api.Persistence.{Archive, SnapshotResult, save, save_failed, is_precondition_failure}
use llmops_rag_api.Rag.Snapshot.Merge.{Renews, Lossless, save_snapshot-Lossless}
use llmops_rag_api.Persistence.Extract.{restore, unsafe_member}
use llmops_rag_api.Rag.VectorStore.Holds.{Holds}
use llmops_rag_api.Rag.Snapshot.Startup.{build_instance, build_instance_synced}
use llmops_rag_api.Rag.VectorStore.{add}

abbrev note : Text → Chunk
note id = record { chunk_id = id; doc_id = id; text = id; index = 0; metadata = [] }

abbrev item : Text → Item
item id = record { id = id; document = id; embedding = []; metadata = [] }

abbrev target : List Text
target = codes "data" ∷ []

-- The snapshot holds "a". This instance has read it and ingests "b"; the other one writes "a", "c" meanwhile.
abbrev archive_of : List Text → Archive
archive_of [] = []
archive_of (id ∷ ids) =
    record { name = codes "id"; content = id }
    ∷ record { name = codes "document"; content = id }
    ∷ archive_of ids

abbrev bucket : Slot
bucket = (6, some (archive_of (codes "a" ∷ [])))

abbrev mine : Instance (List Item)
mine = record { dir = item (codes "b") ∷ item (codes "a") ∷ []; snapshot_generation = 7 }

-- Another instance writes its store before the first call.
abbrev other_first : ℕ → Slot → Slot
other_first zero (n, o) = (suc n, some (archive_of (codes "c" ∷ codes "a" ∷ [])))
other_first (suc k) b = b

abbrev nobody : ℕ → Slot → Slot
nobody k b = b

first_run : (Ended × Instance (List Item)) × Slot
unfolding save_snapshot
first_run =
    save_snapshot gcs chroma tar true target other_first (note (codes "b") ∷ []) ([] ∷ []) mine
      bucket

abbrev merged_archive : Archive
merged_archive = archive_of (codes "b" ∷ codes "c" ∷ codes "a" ∷ [])

abbrev first_result : SnapshotResult
first_result = record {
  ok = true;
  detail = codes "uploaded";
  bytes_transferred = 6;
  generation = 9;
  conflict = false;
}

first_run_merged :
    first_run
    ≡ ((ended first_result 1, record mine { snapshot_generation = 9 }), (8, some merged_archive))
unfolding first_run save pack_items upload_to save_failed is_precondition_failure restore
    unsafe_member text_eq read_items add
first_run_merged = refl

other_first-Renews : Renews gcs other_first
other_first-Renews zero (n, none) g p p' e f = cc e
other_first-Renews zero (n, some q) g p p' e f = absurd (ground arith)
other_first-Renews (suc k) (n, none) g p p' e f = cc e
other_first-Renews (suc k) (n, some q) g p p' e f = cc (e, f)

Holds-own : Holds chroma mine.dir (note (codes "b") ∷ [])
unfolding in_batch text_eq
Holds-own c (inl e) = rw e (refl, refl)
Holds-own c (inr i) = absurd i

save_snapshot-Lossless_example :
    let ((end, inst), after) =
      save_snapshot gcs chroma tar true target other_first
        (note (codes "b") ∷ [])
        ([] ∷ [])
        mine
        bucket in
    ((before : Slot) × Lossless gcs chroma tar true target
        (note (codes "b") ∷ [])
        ([] ∷ [])
        before
        after
        first_result)
    × (inst.snapshot_generation ≡ 9)
    × (inst.dir ≡ mine.dir)
unfolding in_batch text_eq first_run
save_snapshot-Lossless_example =
    save_snapshot-Lossless gcs chroma tar true target (note (codes "b") ∷ []) ([] ∷ []) gcs-IsGcs
      tar-IsTar chroma-IsLawful other_first other_first-Renews (tt, tt) mine bucket first_result 1
      Holds-own (λ p theirs e f. absurd (cc e)) (ap (λ x. x.0.0) first_run_merged) refl

-- The instance next ingests "d". Nobody else writes, and "c" is lost.
abbrev next_dir : List Item
next_dir = item (codes "d") ∷ mine.dir

first_code : Text → ℕ
first_code [] = 0
first_code (c ∷ cs) = c

build_instance_synced_example :
    let inst = build_instance gcs chroma tar true target none bucket in
    ((◌≡◌ {A = Bool} true true)
      × ((restore gcs tar true target none bucket).0.ok ≡ true)
      × (p : Archive) × (gcs.live bucket ≡ some (inst.snapshot_generation, p))
      × (tar.unpack p ≡ some inst.dir))
    ⊎ (((◌≡◌ {A = Bool} true false) ⊎ ((restore gcs tar true target none bucket).0.ok ≡ false))
        × (inst.snapshot_generation ≡ 0)
        × ((p : Archive) → gcs.live bucket ≢ some (inst.snapshot_generation, p)))
build_instance_synced_example =
    build_instance_synced gcs chroma tar gcs-IsGcs true target none bucket
