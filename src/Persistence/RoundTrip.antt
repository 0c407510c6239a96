-- ===== src/Persistence/RoundTrip.antt =====
-- What `save` and `restore` of src/app/persistence.py promise when they report success.
use llmops_rag_api.Text.{Text, text_eq_refl, is_empty}
use llmops_rag_api.Persistence.{
  Presence, present, absent, unreachable, Download, downloaded, broken, Archive, Gcs, IsGcs, Tar,
  ◌≡◌, List, save, generation_of, text_eq, codes, Upload, save_failed, upload_archive, uploaded,
  Failure, tar_failure, refused,
}
use llmops_rag_api.Persistence.Extract.{
  is_absolute, is_relative_to, resolve_from, unsafe_member, destination, components, restore,
  safe_extract, unpack_into,
}
use llmops_rag_api.Prelude.{
  ℕ, refl, inl, inr, Bool, true, false, ◌||◌, Option, none, some, [], ◌∷◌, ◌++◌, All, Bool-cases,
  Option-cases, subst, ◌⊎◌, arith, sym, ◌∙◌, ap,
}
use mathlib.Core.List.{append-nil, append_assoc}

-- A name with no ".." in it, which does not begin at the root.
abbrev pub IsPlain : Text → Type 0
IsPlain name =
    (is_absolute name ≡ false) × All (λ c. text_eq c (codes "..") ≡ false) (components name)

-- What the program relies on of `tarfile`: a directory comes back from its archive, and the archive
-- names its members below ".".
pub record IsTar {Dir : Type 0} (T : Tar Dir) : Type 0 where
  pub unpack-pack : (d : Dir) (p : Archive) → T.pack d ≡ some p → T.unpack p ≡ some d
  pub pack-plain : (d : Dir) (p : Archive) → T.pack d ≡ some p → All (λ m. IsPlain m.name) p

is_relative_to-append : (t x : List Text) → is_relative_to (t ++ x) t ≡ true
unfolding is_relative_to
is_relative_to-append [] x = refl
is_relative_to-append (a ∷ t) x = rw (text_eq_refl a) (is_relative_to-append t x)

resolve_plain :
    (cs target extra : List Text)
    → All (λ c. text_eq c (codes "..") ≡ false) cs
    → is_relative_to (resolve_from (target ++ extra) cs) target ≡ true
unfolding resolve_from
resolve_plain [] target extra h = is_relative_to-append target extra
resolve_plain (c ∷ cs) target extra h = elim (Bool-cases (is_empty c || text_eq c (codes "."))) [
  | inl e ↦ rw e (resolve_plain cs target extra h.1)
  | inr e ↦ rw e (
      rw h.0
        (rw (append_assoc target extra (c ∷ [])) (resolve_plain cs target (extra ++ (c ∷ [])) h.1)))
]

-- No archive of plain names is refused, whatever the target.
pub unsafe_member-plain :
    (target : List Text) (ms : Archive)
    → All (λ m. IsPlain m.name) ms
    → unsafe_member target ms ≡ none
unfolding unsafe_member destination
unsafe_member-plain target [] h = refl
unsafe_member-plain target (m ∷ ms) h =
    let inside : is_relative_to (resolve_from target (components m.name)) target ≡ true =
      rw (append-nil target) at (resolve_plain (components m.name) target [] h.0.1) in
    rw (h.0.0) (rw inside (unsafe_member-plain target ms h.1))

abbrev pub AllInside : List Text → Archive → Type 0
AllInside target ms = All (λ m. is_relative_to (destination target m.name) target ≡ true) ms

unsafe_member-none :
    (target : List Text) (ms : Archive) → unsafe_member target ms ≡ none → AllInside target ms
unfolding unsafe_member
unsafe_member-none target [] h = tt
unsafe_member-none target (m ∷ ms) h =
    elim (Bool-cases (is_relative_to (destination target m.name) target)) [
      | inl e ↦ (e, unsafe_member-none target ms (rw e at h))
      | inr e ↦ absurd (clash (rw e at h))
    ]
  where
    clash : some m.name ≡ none → ⊥
    clash e = cc

Upload-cases : (u : Upload) → ((g : ℕ) × (u ≡ uploaded g)) ⊎ ((e : Failure) × (u ≡ refused e))
Upload-cases (uploaded g) = inl (g, refl)
Upload-cases (refused e) = inr (e, refl)

Download-cases :
    (d : Download)
    → ((g : ℕ) × (p : Archive) × (d ≡ downloaded g p)) ⊎ ((e : Failure) × (d ≡ broken e))
Download-cases (downloaded g p) = inl (g, p, refl)
Download-cases (broken e) = inr (e, refl)

Presence-cases :
    (x : Presence) → (x ≡ present) ⊎ ((x ≡ absent) ⊎ ((e : Failure) × (x ≡ unreachable e)))
Presence-cases present = inl refl
Presence-cases absent = inr (inl refl)
Presence-cases (unreachable e) = inr (inr (e, refl))

save_failed-not_ok : (e : Failure) → (save_failed e).ok ≡ true → ⊥
unfolding save_failed
save_failed-not_ok e h = ground arith

module _ (G : Gcs) (L : IsGcs G) {Dir : Type 0} (T : Tar Dir) where
  upload_archive-ok :
      (p : Archive) (expected : Option ℕ) (b : G.Bucket)
      → (upload_archive G T p expected b).0.ok ≡ true
      → let (r, b') = upload_archive G T p expected b in
        (G.live b' ≡ some (r.generation, p))
        × ((e : ℕ) → expected ≡ some e → generation_of (G.live b) ≡ e)
  unfolding upload_archive
  upload_archive-ok p expected b h =
      let b' = (G.upload b p expected).1 in
      elim (Upload-cases (G.upload b p expected).0) [
        | inr (f, e) ↦ absurd (save_failed-not_ok f (rw (e, upload_archive) at h))
        | inl (g, e) ↦
            let whole : G.upload b p expected ≡ (uploaded g, b') = λ i. (e i, b') in
            rw (e, upload_archive)
              (
                L.uploaded-live b b' p expected g whole,
                λ n same.
                    L.uploaded-matched b b' p n g
                      (subst (λ x. G.upload b p x ≡ (uploaded g, b')) same whole),
              )
      ]

  -- A save that reports success stored the archive of its directory under the generation that it
  -- reports, and where it was conditional the object had the expected generation before.
  pub save-ok :
      (enabled : Bool) (source : Option Dir) (expected : Option ℕ) (b : G.Bucket)
      → (save G T enabled source expected b).0.ok ≡ true
      → let (r, b') = save G T enabled source expected b in
        (d : Dir) × (p : Archive) × (source ≡ some d)
        × (T.pack d ≡ some p)
        × (G.live b' ≡ some (r.generation, p))
        × ((e : ℕ) → expected ≡ some e → generation_of (G.live b) ≡ e)
  unfolding save
  save-ok false source expected b h = cc h
  save-ok true none expected b h = cc h
  save-ok true (some d) expected b h = elim (Option-cases (T.pack d)) [
    | inl e ↦ absurd (save_failed-not_ok tar_failure (rw (e, save) at h))
    | inr (p, e) ↦
        let stored = upload_archive-ok p expected b (rw (e, save) at h) in
        rw (e, save) (d, p, refl, e, stored.0, stored.1)
  ]

  safe_extract-done :
      (target : List Text) (p : Archive) (d : Dir)
      → unsafe_member target p ≡ none
      → T.unpack p ≡ some d
      → safe_extract G T target p ≡ (none, d)
  unfolding safe_extract
  safe_extract-done target p d e f = rw (e, safe_extract) (rw (f, safe_extract) refl)

  unpack_into-done :
      (target : List Text) (g : ℕ) (p : Archive) (d : Dir)
      → unsafe_member target p ≡ none
      → T.unpack p ≡ some d
      → (unpack_into G T target g p).0.ok ≡ true
        × ((unpack_into G T target g p).0.generation ≡ g)
        × ((unpack_into G T target g p).1 ≡ some d)
  unfolding unpack_into
  unpack_into-done target g p d e f =
      let done = safe_extract-done target p d e f in
      rw (done, unpack_into) (refl, refl, ap (λ (x : Option Text × Dir). some x.1) done)

  unpack_into-ok :
      (target : List Text) (g : ℕ) (p : Archive)
      → (unpack_into G T target g p).0.ok ≡ true
      → (d : Dir) × ((unpack_into G T target g p).1 ≡ some d)
        × ((unpack_into G T target g p).0.generation ≡ g)
        × (T.unpack p ≡ some d)
        × AllInside target p
  unfolding unpack_into
  unpack_into-ok target g p h = elim (Option-cases (unsafe_member target p)) [
    | inr (name, e) ↦ absurd (clash (rw (e, unpack_into, safe_extract) at h))
    | inl e ↦ elim (Option-cases (T.unpack p)) [
      | inl f ↦
          absurd
            (clash (rw (f, unpack_into, safe_extract) at (rw (e, unpack_into, safe_extract) at h)))
      | inr (d, f) ↦
          let done = unpack_into-done target g p d e f in
          (d, done.2, done.1, f, unsafe_member-none target p e)
    ]
  ]
    where
      clash : false ≡ true → ⊥
      clash e = cc

  restore-downloaded :
      (target : List Text) (before : Option Dir) (b : G.Bucket) (g : ℕ) (p : Archive)
      → G.exists b ≡ present
      → G.download b ≡ downloaded g p
      → restore G T true target before b ≡ unpack_into G T target g p
  unfolding restore
  restore-downloaded target before b g p e f = rw (e, restore) (rw (f, restore) refl)

  -- A restore that reports success has read the object.
  restore-read :
      (enabled : Bool) (target : List Text) (before : Option Dir) (b : G.Bucket)
      → (restore G T enabled target before b).0.ok ≡ true
      → (g : ℕ) × (p : Archive) × (G.download b ≡ downloaded g p)
        × (restore G T enabled target before b ≡ unpack_into G T target g p)
  unfolding restore
  restore-read false target before b h = cc h
  restore-read true target before b h = elim (Presence-cases (G.exists b)) [
    | inr (inl e) ↦ absurd (clash (rw (e, restore) at h))
    | inr (inr (f, e)) ↦ absurd (clash (rw (e, restore) at h))
    | inl e ↦ elim (Download-cases (G.download b)) [
      | inr (f, k) ↦ absurd (clash (rw (k, restore) at (rw (e, restore) at h)))
      | inl (g, p, k) ↦ (g, p, k, restore-downloaded target before b g p e k)
    ]
  ]
    where
      clash : false ≡ true → ⊥
      clash e = cc

  -- A restore that reports success unpacked the archive that the object holds, under the generation
  -- that it reports, and every member of it lies inside the target directory.
  pub restore-ok :
      (enabled : Bool) (target : List Text) (before : Option Dir) (b : G.Bucket)
      → (restore G T enabled target before b).0.ok ≡ true
      → let (r, after) = restore G T enabled target before b in
        (d : Dir) × (p : Archive) × (after ≡ some d)
        × (G.live b ≡ some (r.generation, p))
        × (T.unpack p ≡ some d)
        × AllInside target p
  restore-ok enabled target before b h =
      let (g, p, got, same) = restore-read enabled target before b h in
      let (d, put, generation, unpacked, inside) = unpack_into-ok target g p (rw same at h) in
      rw same (d, p, put, rw generation (L.downloaded-live b g p got), unpacked, inside)

  -- After a successful save, a restore from the same object, where GCS answers, gives back the
  -- directory that was saved and the generation that the save reported.
  pub restore-save :
      IsTar T
      → (source : Option Dir) (expected : Option ℕ) (b : G.Bucket) (target : List Text)
        (before : Option Dir)
      → (g : ℕ) (p : Archive) → (save G T true source expected b).0.ok ≡ true
      → G.exists (save G T true source expected b).1 ≡ present
      → G.download (save G T true source expected b).1 ≡ downloaded g p
      → let (saved, b') = save G T true source expected b in
        let (r, after) = restore G T true target before b' in
        (r.ok ≡ true) × (r.generation ≡ saved.generation) × (after ≡ source)
  restore-save t source expected b target before g p h there got =
      let b' = (save G T true source expected b).1 in
      let (d, q, from, packed, stored, matched) = save-ok true source expected b h in
      let same : some (g, p) ≡ some ((save G T true source expected b).0.generation, q) =
        sym (L.downloaded-live b' g p got) ∙ stored in
      let payload : p ≡ q = cc same in
      let done =
        unpack_into-done target g p d
          (rw payload (unsafe_member-plain target q (t.pack-plain d q packed)))
          (rw payload (t.unpack-pack d q packed)) in
      rw (restore-downloaded target before b' g p there got)
        (done.0, done.1 ∙ cc same, done.2 ∙ sym from)
