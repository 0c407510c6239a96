-- ===== src/RateLimit/Eviction.antt =====
-- The memory bound of src/app/rate_limit.py: what `_evict_locked` drops, and how large the table gets.
use llmops_rag_api.Prelude.{
  ℕ, zero, suc, ◌+◌, ◌/◌, ◌≤◌, ◌<◌, ◌≡◌, leb, some, [], ◌∷◌, length, take, drop, All, All-imp,
  length-drop, max, arith, inl, inr, Bool-cases, Option-cases, leb→le, lt→not_leb, ℤ, leb_ℤ, pos,
}
use llmops_rag_api.Prelude.Sort.{
  Shuffle, pick, length-Shuffle, All-Shuffle, sort_by, sort_by-Shuffle, sort_by-IsSorted,
  IsSorted-cut,
}
use llmops_rag_api.Rounding.{Rounding}
use llmops_rag_api.Text.{Text}
use llmops_rag_api.Dict.{
  Dict, lookup, set, IsDict, set-IsDict, length-set_new, length-set_known, Picks-IsDict,
  erase-Picks,
}
use llmops_rag_api.RateLimit.{
  Bucket, RateLimiter, updated_of, delete_all, oldest_half, evict, allow, admit_new, spend_token,
  put_bucket, enabled, refill, token,
}

delete_all-Shuffle :
    (n : ℕ) (d s : Dict Bucket)
    → IsDict d
    → Shuffle d s
    → IsDict (delete_all (take n s) d) × Shuffle (delete_all (take n s) d) (drop n s)
unfolding delete_all
delete_all-Shuffle zero d s h p = (h, p)
delete_all-Shuffle (suc n) d [] h p = (h, p)
delete_all-Shuffle (suc n) d ((k, b) ∷ s) h (pick {r = r} p q) =
    rw (erase-Picks k b p h, delete_all) (delete_all-Shuffle n r s (Picks-IsDict p h) q)

survivors-Shuffle :
    (d : Dict Bucket)
    → IsDict d
    → IsDict (delete_all (oldest_half d) d)
      × Shuffle (delete_all (oldest_half d) d) (drop (length d / 2) (sort_by updated_of d))
unfolding oldest_half
survivors-Shuffle d h =
    delete_all-Shuffle (length d / 2) d (sort_by updated_of d) h (sort_by-Shuffle updated_of d)

-- When the table is over its limit, eviction drops half of the entries, rounded down, and every
-- entry that stays was updated no earlier than each entry that was dropped.
pub evict_oldest :
    (l : RateLimiter)
    → IsDict l.buckets
    → l.max_keys < length l.buckets
    → (length (evict l).buckets + length l.buckets / 2 ≡ length l.buckets)
      × All
          (λ gone. All (λ stays. updated_of gone ≤ updated_of stays) (evict l).buckets)
          (oldest_half l.buckets)
unfolding evict
evict_oldest l h over =
    let d = l.buckets in
    let p = (survivors-Shuffle d h).1 in
    let s = sort_by updated_of d in
    rw (lt→not_leb (length d) l.max_keys over) (
      omega (
        arith,
        length-Shuffle p,
        length-drop (length d / 2) s,
        length-Shuffle (sort_by-Shuffle updated_of d),
      ),
      unfold oldest_half in
          All-imp _ _ (take (length d / 2) s)
            (λ x m. All-Shuffle (λ y. updated_of x ≤ updated_of y) p m)
            (IsSorted-cut updated_of (length d / 2) s (sort_by-IsSorted updated_of d)),
    )

-- What `allow` keeps of the table: no key stands twice, and its size is bounded.
pub record IsBounded (l : RateLimiter) : Type 0 where
  pub distinct : IsDict l.buckets
  pub size : length l.buckets ≤ max (l.max_keys + 1) 2

evict-IsDict : (l : RateLimiter) → IsDict l.buckets → IsDict (evict l).buckets
unfolding evict
evict-IsDict l h = elim (Bool-cases (leb (length l.buckets) l.max_keys)) [
  | inl e ↦ rw e h
  | inr e ↦ rw e (survivors-Shuffle l.buckets h).0
]

-- After an eviction there is room for one more key.
length-evict :
    (l : RateLimiter) → IsBounded l → length (evict l).buckets + 1 ≤ max (l.max_keys + 1) 2
length-evict l b = elim (Bool-cases (leb (length l.buckets) l.max_keys)) [
  | inl e ↦ unfold evict in rw e (omega (arith, leb→le (length l.buckets) l.max_keys e))
  | inr e ↦
      let over : l.max_keys < length l.buckets = ground arith in
      omega (arith, (evict_oldest l b.distinct over).0, b.size)
]

length-set-le : {V : Type 0} (k : Text) (v : V) (d : Dict V) → length (set k v d) ≤ length d + 1
length-set-le k v d = elim (Option-cases (lookup k d)) [
  | inl e ↦ omega (arith, length-set_new k v d e)
  | inr (w, e) ↦ omega (arith, length-set_known k v d e)
]

pub put_known-IsBounded :
    (key : Text) (tokens : ℤ) (now : ℕ) (l : RateLimiter) {b : Bucket}
    → lookup key l.buckets ≡ some b
    → IsBounded l
    → IsBounded (put_bucket key tokens now l)
unfolding put_bucket
put_known-IsBounded key tokens now l e h = record {
  distinct = set-IsDict key _ l.buckets h.distinct;
  size = rw (length-set_known key _ l.buckets e) h.size;
}

evict-max_keys : (l : RateLimiter) → (evict l).max_keys ≡ l.max_keys
unfolding evict
evict-max_keys l = ground arith

-- Whatever the clients send and whatever the clock shows, a call of `allow` keeps the table without
-- duplicate keys and within one entry more than `max_keys` (within two entries where `max_keys` is 0).
pub allow-IsBounded :
    (rounding : Rounding) (key : Text) (now : ℕ) (l : RateLimiter)
    → IsBounded l
    → IsBounded (allow rounding key now l).1
unfolding allow
allow-IsBounded rounding key now l h = elim (Bool-cases (enabled l)) [
  | inr off ↦ rw off h
  | inl on ↦ rw on (elim (Option-cases (lookup key l.buckets)) [
    | inl e ↦ rw e (
        unfold admit_new in
        record {
          distinct = set-IsDict key _ (evict l).buckets (evict-IsDict l h.distinct);
          size =
              rw (evict-max_keys l)
                (omega (arith, length-evict l h, length-set-le key _ (evict l).buckets));
        })
    | inr (b, e) ↦
        let t = refill now l.rate b in
        rw e (elim (Bool-cases (leb_ℤ (pos token) t)) [
          | inl yes_ ↦ unfold spend_token in rw yes_ (put_known-IsBounded key _ now l e h)
          | inr no_ ↦ unfold spend_token in rw no_ (put_known-IsBounded key _ now l e h)
        ])
  ])
]
