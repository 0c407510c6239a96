-- ===== src/Rag/Snapshot/Merge.antt =====
-- That a successful `_save_snapshot` of src/app/rag/pipeline.py loses nothing of the snapshot that it
-- replaces, as long as the instance's own store has all of the snapshot that it last synced with.
use llmops_rag_api.Rag.Chroma.{Chroma, Vector, IsLawful}
use llmops_rag_api.Persistence.{
  Gcs, IsGcs, Tar, SnapshotResult, Archive, save, save_failed, generation_of,
}
use Prim.Native.Nat.{ℕ}
use llmops_rag_api.Rag.Snapshot.{
  merge_loop, save_snapshot, Ended, ended, crashed, Instance, adopt, snapshot_merge_attempts, Round,
  stopped, value_error, Text, raised, store_error, Chunk, saved, added, replay, add, workspace_of,
  merge_round, restore,
}
use llmops_rag_api.Rag.VectorStore.{Added}
use llmops_rag_api.Prelude.{
  zero, suc, ◌*◌, Bool-cases, Bool, ◌≡◌, refl, sym, ap, ◌∙◌, ◌⊎◌, inl, inr, true, false, Option,
  some, List, arith, ◌+◌, none, Option-cases,
}
use llmops_rag_api.Persistence.RoundTrip.{IsTar, save-ok, restore-ok}
use llmops_rag_api.Rag.VectorStore.Holds.{Holds, Keeps, add-Holds}
use llmops_rag_api.Rag.Chunking.Ids.{DistinctIds}

-- A write of another instance gives the object a new generation.
abbrev pub Renews : (G : Gcs) → (ℕ → G.Bucket → G.Bucket) → Type 0
Renews G others =
    (n : ℕ) (b : G.Bucket) (g : ℕ) (p p' : Archive)
    → G.live b ≡ some (g, p)
    → G.live (others n b) ≡ some (g, p')
    → p ≡ p'

Round-cases : (x : Round) → (x ≡ stopped) ⊎ ((x ≡ raised) ⊎ ((r : SnapshotResult) × (x ≡ saved r)))
Round-cases stopped = inl refl
Round-cases raised = inr (inl refl)
Round-cases (saved r) = inr (inr (r, refl))

pub Added-cases :
    {D : Type 0} (x : Added D)
    → (x ≡ value_error) ⊎ ((x ≡ store_error) ⊎ ((n : ℕ) × (d : D) × (x ≡ added n d)))
Added-cases (added n d) = inr (inr (n, d, refl))
Added-cases value_error = inl refl
Added-cases store_error = inr (inl refl)

module _ (G : Gcs) (C : Chroma) (T : Tar C.Dir) (enabled : Bool) (workspace : List Text)
    (chunks : List Chunk) (vectors : List Vector) where
  -- The last upload of a run that succeeded: the object before and after it, and what it stored.
  pub record Lossless (before after : G.Bucket) (r : SnapshotResult) : Type 0 where
    pub merged : C.Dir
    pub payload : Archive
    pub expected : ℕ
    pub uploads : save G T enabled (some merged) (some expected) before ≡ (r, after)
    pub stored : G.live after ≡ some (r.generation, payload)
    pub unpacks : T.unpack payload ≡ some merged
    pub holds : Holds C merged chunks
    pub keeps :
        (g : ℕ) (p : Archive) (theirs : C.Dir)
        → G.live before ≡ some (g, p)
        → T.unpack p ≡ some theirs
        → Keeps C theirs merged

  pub save-conflict :
      (source : Option C.Dir) (expected : Option ℕ) (b : G.Bucket)
      → (save G T enabled source expected b).0.conflict ≡ true
      → (save G T enabled source expected b).0.ok ≡ false
  unfolding save save_failed
  save-conflict source expected b h = ground arith

  -- A save of a directory that keeps what the object held.
  save-Lossless :
      (L : IsGcs G) (t : IsTar T) (merged : C.Dir) (expected : ℕ) (before : G.Bucket)
      → (save G T enabled (some merged) (some expected) before).0.ok ≡ true
      → Holds C merged chunks
      → ((p : Archive) (theirs : C.Dir)
          → G.live before ≡ some (expected, p)
          → T.unpack p ≡ some theirs
          → Keeps C theirs merged)
      → let (r, after) = save G T enabled (some merged) (some expected) before in
        Lossless before after r
  save-Lossless L t merged expected before h holds keeps =
      let (d, p, from, packed, stored, matched) =
        save-ok G L T enabled (some merged) (some expected) before h in
      let same : merged ≡ d = cc from in
      record {
        merged = merged;
        payload = p;
        expected = expected;
        uploads = refl;
        stored = stored;
        unpacks = rw same (t.unpack-pack d p packed);
        holds = holds;
        keeps = λ g q theirs there unpacked.
            let generation : g ≡ expected = sym (ap generation_of there) ∙ matched expected refl in
            keeps q theirs (rw (← generation) there) unpacked;
      }

  module _ (L : IsGcs G) (t : IsTar T) (K : IsLawful C) (others : ℕ → G.Bucket → G.Bucket)
      (renews : Renews G others) (distinct : DistinctIds chunks) where
    -- A replay that ends well has merged the chunks into the other instance's store.
    replay-Lossless :
        (n generation : ℕ) (p : Archive) (theirs : C.Dir) (b b' : G.Bucket) (r : SnapshotResult)
        → replay G C T enabled workspace others n chunks vectors generation theirs b ≡ (saved r, b')
        → G.live b ≡ some (generation, p)
        → T.unpack p ≡ some theirs
        → r.ok ≡ true
        → Lossless (others n b) b' r
    unfolding replay
    replay-Lossless n generation p theirs b b' r e there unpacked h =
        elim (Added-cases (add C theirs chunks vectors)) [
          | inl f ↦ absurd (clash (rw (f, replay) at e))
          | inr (inl f) ↦ absurd (clash (rw (f, replay) at e))
          | inr (inr (m, merged, f)) ↦
              let s = save G T enabled (some merged) (some generation) (others n b) in
              let same : ◌≡◌ {A = Round × G.Bucket} (saved s.0, s.1) (saved r, b') =
                rw (f, replay) at e in
              let outcome : s.0 ≡ r = cc same in
              let after : s.1 ≡ b' = cc same in
              let (holds, keeps, others_kept) =
                add-Holds C K theirs chunks vectors {n = m} {d' = merged} distinct f in
              rw (← outcome, ← after)
                (save-Lossless L t merged generation (others n b) (rw (← outcome) at h) holds
                  (λ p' theirs' now unpacked'.
                    let payload : p ≡ p' = renews n b generation p p' there now in
                    let dirs : theirs ≡ theirs' = cc (unpacked, unpacked', payload) in
                    rw (← dirs) keeps))
        ]
      where
        clash : ◌≡◌ {A = Round × G.Bucket} (raised, b) (saved r, b') → ⊥
        clash x = cc

    workspace-read :
        (x : SnapshotResult × Option C.Dir) (g : ℕ) (d : C.Dir)
        → workspace_of G C T enabled workspace x ≡ some (g, d)
        → (x.0.ok ≡ true) × (x.0.generation ≡ g) × (x.1 ≡ some d)
    workspace-read (r, none) g d e = cc
    workspace-read (r, some d') g d e = ground arith

    merge_round-Lossless :
        (n : ℕ) (b b' : G.Bucket) (r : SnapshotResult)
        → merge_round G C T enabled workspace others n chunks vectors b ≡ (saved r, b')
        → r.ok ≡ true
        → (before : G.Bucket) × Lossless before b' r
    unfolding merge_round
    merge_round-Lossless n b b' r e h =
        let got = restore G T enabled workspace none (others n b) in
        elim (Option-cases (workspace_of G C T enabled workspace got)) [
          | inl f ↦ absurd (clash (rw (f, merge_round) at e))
          | inr ((g, theirs), f) ↦
              let (fine, generation, put) = workspace-read got g theirs f in
              let (d, p, put', there, unpacked, inside) =
                restore-ok G L T enabled workspace none (others n b) fine in
              let dirs : d ≡ theirs = cc (put, put') in
              (
                others (n + 1) (others n b),
                replay-Lossless (n + 1) g p theirs (others n b) b' r (rw (f, merge_round) at e)
                    (rw (← generation) there) (rw (← dirs) unpacked) h,
              )
        ]
      where
        clash : ◌≡◌ {A = Round × G.Bucket} (stopped, others n b) (saved r, b') → ⊥
        clash x = cc

    replay-conflict :
        (n generation : ℕ) (theirs : C.Dir) (b b' : G.Bucket) (r : SnapshotResult)
        → replay G C T enabled workspace others n chunks vectors generation theirs b ≡ (saved r, b')
        → r.conflict ≡ true
        → r.ok ≡ false
    unfolding replay
    replay-conflict n generation theirs b b' r e h =
        elim (Added-cases (add C theirs chunks vectors)) [
          | inl f ↦ absurd (clash (rw (f, replay) at e))
          | inr (inl f) ↦ absurd (clash (rw (f, replay) at e))
          | inr (inr (m, merged, f)) ↦
              let s = save G T enabled (some merged) (some generation) (others n b) in
              let same : ◌≡◌ {A = Round × G.Bucket} (saved s.0, s.1) (saved r, b') =
                rw (f, replay) at e in
              let outcome : s.0 ≡ r = cc same in
              rw (← outcome)
                (save-conflict (some merged) (some generation) (others n b) (rw (← outcome) at h))
        ]
      where
        clash : ◌≡◌ {A = Round × G.Bucket} (raised, b) (saved r, b') → ⊥
        clash x = cc

    merge_round-conflict :
        (n : ℕ) (b b' : G.Bucket) (r : SnapshotResult)
        → merge_round G C T enabled workspace others n chunks vectors b ≡ (saved r, b')
        → r.conflict ≡ true
        → r.ok ≡ false
    unfolding merge_round
    merge_round-conflict n b b' r e h =
        elim (Option-cases (
          workspace_of G C T enabled workspace (restore G T enabled workspace none (others n b)))) [
            | inl f ↦ absurd (clash (rw (f, merge_round) at e))
            | inr ((g, theirs), f) ↦
                replay-conflict (n + 1) g theirs (others n b) b' r (rw (f, merge_round) at e) h
          ]
      where
        clash : ◌≡◌ {A = Round × G.Bucket} (stopped, others n b) (saved r, b') → ⊥
        clash x = cc

    -- What the loop knows of an outcome and the object that it left.
    abbrev Sound : SnapshotResult → G.Bucket → Type 0
    Sound r b =
        (r.ok ≡ true → (before : G.Bucket) × Lossless before b r)
        × (r.conflict ≡ true → r.ok ≡ false)

    ended-read :
        (o r : SnapshotResult) (j k : ℕ) (b b' : G.Bucket)
        → ◌≡◌ {A = Ended × G.Bucket} (ended o j, b) (ended r k, b')
        → (o ≡ r) × (b ≡ b')
    ended-read o r j k b b' e = (cc e, cc e)

    ended_unconflicted :
        (o r : SnapshotResult) (j k : ℕ) (b b' : G.Bucket)
        → o.conflict ≡ false
        → ◌≡◌ {A = Ended × G.Bucket} (ended (record o { conflict = false }) j, b) (ended r k, b')
        → (o ≡ r) × (b ≡ b')
    ended_unconflicted o r j k b b' f e =
        let same : o ≡ record o { conflict = false } = λ i. record o { conflict = f i } in
        let read = ended-read (record o { conflict = false }) r j k b b' e in
        (same ∙ read.0, read.1)

    merge_loop-Lossless :
        (left attempts : ℕ) (o r : SnapshotResult) (k : ℕ) (b b' : G.Bucket)
        → Sound o b
        → merge_loop G C T enabled workspace others left attempts chunks vectors o b
          ≡ (ended r k, b')
        → r.ok ≡ true
        → (before : G.Bucket) × Lossless before b' r
    unfolding merge_loop
    merge_loop-Lossless zero attempts o r k b b' s e h =
        let (outcome, after) = ended-read o r attempts k b b' e in
        rw (← outcome, ← after) (s.0 (rw (← outcome) at h))
    merge_loop-Lossless (suc left) attempts o r k b b' s e h = elim (Bool-cases o.conflict) [
      | inr f ↦
          let (outcome, after) =
            ended_unconflicted o r attempts k b b' f (rw (f, merge_loop) at e) in
          rw (← outcome, ← after) (s.0 (rw (← outcome) at h))
      | inl f ↦
          let round =
            merge_round G C T enabled workspace others (1 + 2 * attempts) chunks vectors b in
          elim (Round-cases round.0) [
            | inl x ↦
                let (outcome, after) =
                  ended-read o r (attempts + 1) k round.1 b'
                    (rw (x, merge_loop) at (rw (f, merge_loop) at e)) in
                absurd (cc (s.1 f, outcome, h))
            | inr (inl x) ↦ absurd (clash round.1 (rw (x, merge_loop) at (rw (f, merge_loop) at e)))
            | inr (inr (next, x)) ↦
                let whole : round ≡ (saved next, round.1) = λ i. (x i, round.1) in
                merge_loop-Lossless left (attempts + 1) next r k round.1 b'
                  (
                    merge_round-Lossless (1 + 2 * attempts) b round.1 next whole,
                    merge_round-conflict (1 + 2 * attempts) b round.1 next whole,
                  )
                  (rw (x, merge_loop) at (rw (f, merge_loop) at e)) h
          ]
    ]
      where
        clash : (c : G.Bucket) → ◌≡◌ {A = Ended × G.Bucket} (crashed, c) (ended r k, b') → ⊥
        clash c x = cc

    -- When `_save_snapshot` ends with a success, its last upload was conditional on the generation that
    -- the object then had, it stored a store that has every chunk of the run and every id that the
    -- snapshot before it had, and the instance goes on from the generation of that upload. This is for
    -- chunks with distinct ids, an instance whose store has those chunks, and every id of the snapshot
    -- whose generation it holds; and where a write of another instance gives the object a new generation.
    pub save_snapshot-Lossless :
        (inst : Instance C.Dir) (b : G.Bucket) (r : SnapshotResult) (k : ℕ)
        → Holds C inst.dir chunks
        → ((p : Archive) (theirs : C.Dir)
            → G.live (others 0 b) ≡ some (inst.snapshot_generation, p)
            → T.unpack p ≡ some theirs
            → Keeps C theirs inst.dir)
        → (save_snapshot G C T enabled workspace others chunks vectors inst b).0.0 ≡ ended r k
        → r.ok ≡ true
        → let ((end, inst'), after) =
            save_snapshot G C T enabled workspace others chunks vectors inst b in
          ((before : G.Bucket) × Lossless before after r)
          × (inst'.snapshot_generation ≡ r.generation)
          × (inst'.dir ≡ inst.dir)
    unfolding save_snapshot adopt
    save_snapshot-Lossless inst b r k holds synced e h =
        let expected = inst.snapshot_generation in
        let first = save G T enabled (some inst.dir) (some expected) (others 0 b) in
        let loop =
          merge_loop G C T enabled workspace others snapshot_merge_attempts 0 chunks vectors first.0
            first.1 in
        let end : loop.0 ≡ ended r k = e in
        let sound : Sound first.0 first.1 = (
          (λ fine.
              (others 0 b, save-Lossless L t inst.dir expected (others 0 b) fine holds synced)),
          save-conflict (some inst.dir) (some expected) (others 0 b),
        ) in
        (
          merge_loop-Lossless snapshot_merge_attempts 0 first.0 r k first.1 loop.1 sound
              (λ i. (end i, loop.1)) h,
          rw end (rw h refl),
          rw end (rw h refl),
        )
