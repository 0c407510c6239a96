-- ===== src/Persistence/Extract.antt =====
-- `_safe_extract` and `restore` of src/app/persistence.py. A path is the list of its components; the
-- target directory has been made anew, so that no symbolic link takes part in `resolve`.
use llmops_rag_api.Text.{Text, is_empty}
use llmops_rag_api.Persistence.{
  present, absent, unreachable, downloaded, broken, Archive, Gcs, Tar, SnapshotResult, failed, ℕ,
  List, Bool, text_eq, codes,
}
use llmops_rag_api.Prelude.{
  true, false, ◌&&◌, ◌||◌, Option, none, some, [], ◌∷◌, ◌++◌, ◌==◌, if◌then◌else◌,
}

abbrev pub slash : ℕ
slash = b'/'

abbrev pub cons_first : ℕ → List Text → List Text
cons_first c [] = (c ∷ []) ∷ []
cons_first c (p ∷ ps) = (c ∷ p) ∷ ps

-- `name.split("/")`
unfoldable pub components : Text → List Text
components [] = [] ∷ []
components (c ∷ s) = let rest = components s in if c == slash then [] ∷ rest else cons_first c rest

abbrev pub drop_last : List Text → List Text
drop_last [] = []
drop_last (x ∷ []) = []
drop_last (x ∷ y ∷ xs) = x ∷ drop_last (y ∷ xs)

-- `resolve()`: empty components and "." are dropped, and ".." goes up, at the root nowhere.
unfoldable pub resolve_from : List Text → List Text → List Text
resolve_from at [] = at
resolve_from at (c ∷ cs) =
    resolve_from
      (if is_empty c || text_eq c (codes ".")
        then at
        else if text_eq c (codes "..")
        then drop_last at
        else at ++ (c ∷ []))
      cs

abbrev pub is_absolute : Text → Bool
is_absolute [] = false
is_absolute (c ∷ _) = c == slash

-- `(resolved_target / name).resolve()`
unfoldable pub destination : List Text → Text → List Text
unfolding resolve_from components
destination target name = resolve_from (if is_absolute name then [] else target) (components name)

-- `path.is_relative_to(target)`
unfoldable pub is_relative_to : List Text → List Text → Bool
is_relative_to path [] = true
is_relative_to [] (t ∷ ts) = false
is_relative_to (p ∷ ps) (t ∷ ts) = text_eq p t && is_relative_to ps ts

-- The first member that would leave the target, if there is one.
unfoldable pub unsafe_member : List Text → Archive → Option Text
unfolding destination is_relative_to
unsafe_member target [] = none
unsafe_member target (m ∷ ms) =
    if is_relative_to (destination target m.name) target
    then unsafe_member target ms
    else some m.name

module _ (G : Gcs) {Dir : Type 0} (T : Tar Dir) where
  -- The directory that is left, and the text of the error, if one is raised.
  unfoldable pub safe_extract : List Text → Archive → Option Text × Dir
  safe_extract target payload = elim (unsafe_member target payload) [
    | some name ↦ (some (codes "refusing unsafe tar member: " ++ name), T.fresh)
    | none ↦ elim (T.unpack payload) [
      | none ↦ (some (codes "cannot extract"), T.partial payload)
      | some dir ↦ (none, dir)
    ]
  ]

  unfoldable pub unpack_into : List Text → ℕ → Archive → SnapshotResult × Option Dir
  unfolding safe_extract
  unpack_into target g payload =
      let (error, dir) = safe_extract target payload in
      elim error [
        | some message ↦ (failed (codes "restore failed: " ++ message), some dir)
        | none ↦ (
          record {
            ok = true;
            detail = codes "restored";
            bytes_transferred = T.size payload;
            generation = g;
            conflict = false;
          },
          some dir,
        )
      ]

  -- `restore(target_dir)`: the result, and what the directory holds after it (`before` if the call
  -- did not come so far as to replace it).
  unfoldable pub restore : Bool → List Text → Option Dir → G.Bucket → SnapshotResult × Option Dir
  unfolding unpack_into
  restore enabled target before b =
      if enabled
      then elim (G.exists b) [
        | unreachable e ↦ (failed (codes "restore failed: " ++ e.message), before)
        | absent ↦ (failed (codes "no snapshot found"), before)
        | present ↦ elim (G.download b) [
          | downloaded g payload ↦ unpack_into target g payload
          | broken e ↦ (failed (codes "restore failed: " ++ e.message), before)
        ]
      ]
      else (failed (codes "disabled"), before)
