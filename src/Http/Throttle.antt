-- ===== src/Http/Throttle.antt =====
-- Which requests the middleware of src/app/main.py lets through, one after another: a client that waits for the
-- time in the answer, and clients that are new to the limiter.
use llmops_rag_api.Prelude.{
  ℕ, ◌≡◌, ◌⊎◌, true, false, none, Bool-cases, inl, refl, ap, inr, ◌≢◌, List, ℤ, pos, sym, ◌∙◌, [],
  ◌∷◌, map, leb, Option-cases, All, length, leb_ℤ,
}
use llmops_rag_api.Http.{
  Request, too_many, passed, client_key, is_metered, rate_limit_middleware, Rounding, Text, decimal,
  enabled, Response,
}
use llmops_rag_api.RateLimit.{
  RateLimiter, allow, admit_new, delete_all, evict, put_bucket, spend_token, Bucket, oldest_half,
  token, refill,
}
use llmops_rag_api.Dict.{lookup, lookup-set_ne, Dict, erase, lookup-erase-none}
use llmops_rag_api.RateLimit.RetryAfter.{retry_after_header}

allow_disabled :
    (rounding : Rounding) (key : Text) (now : ℕ) (l : RateLimiter)
    → enabled l ≡ false
    → allow rounding key now l ≡ ((true, 0), l)
unfolding allow
allow_disabled rounding key now l e = rw e refl

allow_new :
    (rounding : Rounding) (key : Text) (now : ℕ) (l : RateLimiter)
    → lookup key l.buckets ≡ none
    → (allow rounding key now l).0.0 ≡ true
unfolding allow admit_new
allow_new rounding key now l h = elim (Bool-cases (enabled l)) [
  | inl e ↦ rw e (rw h refl)
  | inr e ↦ rw e refl
]

delete_all-none :
    (j : Text) (gone : List (Text × Bucket)) (d : Dict Bucket)
    → lookup j d ≡ none
    → lookup j (delete_all gone d) ≡ none
unfolding delete_all
delete_all-none j [] d h = h
delete_all-none j ((k, b) ∷ gone) d h =
    delete_all-none j gone (erase k d) (lookup-erase-none j k d h)

evict-none :
    (j : Text) (l : RateLimiter) → lookup j l.buckets ≡ none → lookup j (evict l).buckets ≡ none
unfolding evict
evict-none j l h = elim (Bool-cases (leb (length l.buckets) l.max_keys)) [
  | inl e ↦ rw e h
  | inr e ↦ rw e (delete_all-none j (oldest_half l.buckets) l.buckets h)
]

put_bucket-none :
    (j key : Text) (tokens : ℤ) (now : ℕ) (l : RateLimiter)
    → key ≢ j
    → lookup j l.buckets ≡ none
    → lookup j (put_bucket key tokens now l).buckets ≡ none
unfolding put_bucket
put_bucket-none j key tokens now l ne h = lookup-set_ne j key _ l.buckets (λ e. ne (sym e)) ∙ h

-- A key without a bucket gets none from the call of another.
allow-unknown :
    (rounding : Rounding) (j key : Text) (now : ℕ) (l : RateLimiter)
    → key ≢ j
    → lookup j l.buckets ≡ none
    → lookup j (allow rounding key now l).1.buckets ≡ none
unfolding allow admit_new spend_token
allow-unknown rounding j key now l ne h = elim (Bool-cases (enabled l)) [
  | inr e ↦ rw e h
  | inl e ↦ rw e (elim (Option-cases (lookup key l.buckets)) [
    | inl f ↦ rw f (put_bucket-none j key _ now (evict l) ne (evict-none j l h))
    | inr (b, f) ↦ rw f (elim (Bool-cases (leb_ℤ (pos token) (refill now l.rate b))) [
      | inl c ↦ rw c (put_bucket-none j key _ now l ne h)
      | inr c ↦ rw c (put_bucket-none j key _ now l ne h)
    ])
  ])
]

module _ {A : Type 0} (rounding : Rounding) (sha256 : Text → Text) (call_next : Request → A) where
  unmetered :
      (q : Request) (now : ℕ) (l : RateLimiter)
      → is_metered q.path ≡ false
      → rate_limit_middleware rounding sha256 call_next q now l ≡ (passed (call_next q), l)
  unfolding rate_limit_middleware
  unmetered q now l m = elim (Bool-cases (enabled l)) [
    | inl e ↦ rw e (rw m refl)
    | inr e ↦ rw e refl
  ]

  middleware-allow :
      (q : Request) (now : ℕ) (l : RateLimiter)
      → let run = rate_limit_middleware rounding sha256 call_next q now l in
        let ((allowed, retry_after), l') = allow rounding (client_key sha256 q) now l in
        ((is_metered q.path ≡ false) × (run ≡ (passed (call_next q), l)))
        ⊎ ((is_metered q.path ≡ true)
            × (run.1 ≡ l')
            × (((allowed ≡ true) × (run.0 ≡ passed (call_next q)))
                ⊎ ((allowed ≡ false)
                    × (run.0 ≡ too_many (decimal (retry_after_header retry_after)) retry_after))))
  unfolding rate_limit_middleware
  middleware-allow q now l = elim (Bool-cases (is_metered q.path)) [
    | inr m ↦ inl (m, unmetered q now l m)
    | inl m ↦ elim (Bool-cases (enabled l)) [
      | inr e ↦
          let free = allow_disabled rounding (client_key sha256 q) now l e in
          inr (m, rw e (rw free refl), inl (rw free refl, rw e refl))
      | inl e ↦ elim (Bool-cases (allow rounding (client_key sha256 q) now l).0.0) [
        | inl f ↦ inr (m, rw e (rw m (rw f refl)), inl (f, rw e (rw m (rw f refl))))
        | inr f ↦ inr (m, rw e (rw m (rw f refl)), inr (f, rw e (rw m (rw f refl))))
      ]
    ]
  ]

  new_key :
      (q : Request) (now : ℕ) (l : RateLimiter)
      → lookup (client_key sha256 q) l.buckets ≡ none
      → (rate_limit_middleware rounding sha256 call_next q now l).0 ≡ passed (call_next q)
  new_key q now l h = elim (middleware-allow q now l) [
    | inl (m, same) ↦ ap (λ x. x.0) same
    | inr (m, after, inl (allowed, same)) ↦ same
    | inr (m, after, inr (refused, same)) ↦
        absurd (cc (refused, allow_new rounding (client_key sha256 q) now l h))
  ]

  other_key :
      (j : Text) (q : Request) (now : ℕ) (l : RateLimiter)
      → client_key sha256 q ≢ j
      → lookup j l.buckets ≡ none
      → lookup j (rate_limit_middleware rounding sha256 call_next q now l).1.buckets ≡ none
  other_key j q now l ne h = elim (middleware-allow q now l) [
    | inl (m, same) ↦ rw same h
    | inr (m, after, rest) ↦ rw after (allow-unknown rounding j (client_key sha256 q) now l ne h)
  ]

  -- The answers to requests that arrive one after another.
  unfoldable pub serve : List (Request × ℕ) → RateLimiter → List (Response A)
  serve [] l = []
  serve ((q, now) ∷ qs) l =
      let (answer, l') = rate_limit_middleware rounding sha256 call_next q now l in
      answer ∷ serve qs l'

  -- No two of the requests have one client key, and none of their keys has a bucket.
  abbrev pub NewKeys : List (Request × ℕ) → RateLimiter → Type 0
  NewKeys [] l = Unit
  NewKeys ((q, now) ∷ qs) l =
      (lookup (client_key sha256 q) l.buckets ≡ none)
      × All (λ (r : Request × ℕ). client_key sha256 q ≢ client_key sha256 r.0) qs
      × NewKeys qs l

  NewKeys-later :
      (q : Request) (now : ℕ) (qs : List (Request × ℕ)) (l : RateLimiter)
      → All (λ (r : Request × ℕ). client_key sha256 q ≢ client_key sha256 r.0) qs
      → NewKeys qs l
      → NewKeys qs (rate_limit_middleware rounding sha256 call_next q now l).1
  NewKeys-later q now [] l h n = tt
  NewKeys-later q now ((r, _) ∷ qs) l h n =
      (other_key (client_key sha256 r) q now l h.0 n.0, n.1, NewKeys-later q now qs l h.1 n.2)

  -- Requests whose client keys all differ, and have no bucket at first, all pass, however many they are and
  -- whatever the other buckets hold: the limit binds no client that changes its key with each request.
  pub NewKeys-pass :
      (qs : List (Request × ℕ)) (l : RateLimiter)
      → NewKeys qs l
      → serve qs l ≡ map (λ (r : Request × ℕ). passed (call_next r.0)) qs
  unfolding serve
  NewKeys-pass [] l h = refl
  NewKeys-pass ((q, now) ∷ qs) l h =
      let first = new_key q now l h.0 in
      let more =
        NewKeys-pass qs (rate_limit_middleware rounding sha256 call_next q now l).1
          (NewKeys-later q now qs l h.1 h.2) in
      cc (first, more)
