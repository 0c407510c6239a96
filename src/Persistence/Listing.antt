-- ===== src/Persistence/Listing.antt =====
-- `list_snapshot_objects` of src/app/persistence.py. The listing of GCS is a parameter: `objects` are the
-- objects under the prefix in the order of their names, and `list_blobs` is the call, `none` an exception.
use llmops_rag_api.Prelude.{
  List, ℕ, zero, suc, ◌∷◌, inl, inr, ap, ◌∙◌, take_all, ◌*◌, ◌≤◌, ◌≡◌, ◌≢◌, false, Option, none,
  some, [], map, if◌then◌else◌, take, length, All, In, ◌⊎◌, ◌++◌, ◌<◌, refl, arith, drop,
  take-append-drop,
}
use llmops_rag_api.Prelude.Newest.{
  sort_newest, All-sort_newest, IsNewestFirst, sort_newest-IsNewestFirst, IsNewestFirst-cut,
  sort_newest-Shuffle,
}
use llmops_rag_api.Prelude.Sort.{Shuffle}
use llmops_rag_api.Text.{Text, is_empty}

pub record Blob : Type 0 where
  pub name : Text
  pub updated : Option ℕ

pub record Listing : Type 0 where
  pub objects : List Blob
  pub list_blobs : ℕ → Option (List Blob)

-- What the program relies on: a listing that returns gives the first objects by name, as many as are asked for.
pub record IsListing (S : Listing) : Type 0 where
  pub list_blobs-take : (n : ℕ) (bs : List Blob) → S.list_blobs n ≡ some bs → bs ≡ take n S.objects

-- `b.updated or 0`
abbrev pub updated_of_blob : Blob → ℕ
updated_of_blob b = elim b.updated [ none ↦ 0 | some t ↦ t ]

abbrev pub names_of : List Blob → List Text
names_of bs = map (λ (b : Blob). b.name) bs

unfoldable pub list_snapshot_objects : Listing → Text → ℕ → List Text
unfolding sort_newest
list_snapshot_objects S bucket limit =
    if is_empty bucket then [] else elim (S.list_blobs (limit * 4)) [
      | none ↦ []
      | some bs ↦ names_of (take limit (sort_newest updated_of_blob bs))
    ]

All-take {κ} : {A : Type 0} (P : A → Type κ) (n : ℕ) (xs : List A) → All P xs → All P (take n xs)
All-take P zero xs h = tt
All-take P (suc n) [] h = tt
All-take P (suc n) (x ∷ xs) h = (h.0, All-take P n xs h.1)

take-full :
    {A : Type 0} (n : ℕ) (xs : List A)
    → (length (take n xs) ≡ n) ⊎ ((length (take n xs) < n) × (drop n xs ≡ []))
take-full zero xs = inl refl
take-full (suc n) [] = inr (omega arith, refl)
take-full (suc n) (x ∷ xs) = elim (take-full n xs) [
  | inl e ↦ inl (ap suc e)
  | inr (l, e) ↦ inr (omega (arith, l), e)
]

names_of-absent :
    (name : Text) (bs : List Blob) → All (λ b. name ≢ b.name) bs → ¬ In name (names_of bs)
names_of-absent name [] h i = absurd i
names_of-absent name (b ∷ bs) h (inl e) = absurd (h.0 e)
names_of-absent name (b ∷ bs) h (inr i) = names_of-absent name bs h.1 i

IsNewestFirst-take :
    (n : ℕ) (bs : List Blob)
    → IsNewestFirst updated_of_blob bs
    → IsNewestFirst updated_of_blob (take n bs)
IsNewestFirst-take zero bs h = tt
IsNewestFirst-take (suc n) [] h = tt
IsNewestFirst-take (suc n) (b ∷ bs) h =
    (All-take (λ c. updated_of_blob c ≤ updated_of_blob b) n bs h.0, IsNewestFirst-take n bs h.1)

-- Where the listing returns, the names are those of `limit` of the first `4 * limit` objects by name, or of all
-- these if there are fewer: the most recently written first, and none of the others among
-- them was written later than one that is returned. They are the most recent of all objects, if there are no
-- more than `4 * limit`; and an object whose name is not among the first `4 * limit` is never
-- returned, however recently it was written.
pub list_snapshot_objects-newest :
    (S : Listing) (bucket : Text) (limit : ℕ) (bs : List Blob)
    → IsListing S
    → is_empty bucket ≡ false
    → S.list_blobs (limit * 4) ≡ some bs
    → let names = list_snapshot_objects S bucket limit in
      let first = take (limit * 4) S.objects in
      ((chosen : List Blob) × (others : List Blob) × (names ≡ names_of chosen)
        × Shuffle first (chosen ++ others)
        × (length S.objects ≤ limit * 4 → Shuffle S.objects (chosen ++ others))
        × ((length chosen ≡ limit) ⊎ ((length chosen < limit) × (others ≡ [])))
        × IsNewestFirst updated_of_blob chosen
        × All (λ o. All (λ c. updated_of_blob o ≤ updated_of_blob c) chosen) others)
      × ((name : Text) → All (λ b. name ≢ b.name) first → ¬ In name names)
unfolding list_snapshot_objects
list_snapshot_objects-newest S bucket limit bs L e f =
    let first = L.list_blobs-take (limit * 4) bs f in
    let sorted = sort_newest updated_of_blob bs in
    let in_order = sort_newest-IsNewestFirst updated_of_blob bs in
    let again : take limit sorted ++ drop limit sorted ≡ sorted = take-append-drop limit sorted in
    let shuffled : Shuffle bs (take limit sorted ++ drop limit sorted) =
      rw again (sort_newest-Shuffle updated_of_blob bs) in
    rw e (
      rw f (
        (
          take limit sorted,
          drop limit sorted,
          refl,
          rw (← first) shuffled,
          (λ few. rw (← (first ∙ take_all (limit * 4) S.objects few)) shuffled),
          take-full limit sorted,
          IsNewestFirst-take limit sorted in_order,
          IsNewestFirst-cut updated_of_blob limit sorted in_order,
        ),
        (λ name h. names_of-absent name (take limit sorted) (
            All-take (λ b. name ≢ b.name) limit sorted
              (All-sort_newest updated_of_blob (λ b. name ≢ b.name) bs (rw first h)))),
      ))
