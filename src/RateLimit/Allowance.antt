-- ===== src/RateLimit/Allowance.antt =====
-- How many requests src/app/rate_limit.py lets a client make. A history is a list of calls of
-- `allow`, each with its client and the time that it read from the clock, in the order in which the
-- calls took the lock, which need not be the order of the times.
use llmops_rag_api.RateLimit.{
  RateLimiter, Bucket, delete_all, allow, token, evict, admit_new, enabled, refill, spend_token,
  oldest_half, put_bucket,
}
use llmops_rag_api.Text.{Text, text_eq, text_eq_iff, text_eq_sound, text_eq_refl}
use llmops_rag_api.Rounding.{Rounding}
use llmops_rag_api.Prelude.{
  ℕ, List, ◌∷◌, length, ◌≢◌, ◌≡◌, none, ◌⊎◌, inr, arith, ◌+◌, ◌*◌, ◌≤◌, refl, ◌&&◌, [],
  if◌then◌else◌, neg_part, pos_part, Bool-cases, ℤ, pos, negsuc, ◌-◌, ◌∙◌, inl, true, some, leb,
  Option-cases, leb_ℤ, false, ◌<◌, subst,
}
use llmops_rag_api.Dict.{
  Dict, IsDict, lookup, erase, erase-IsDict, lookup-erase_ne, lookup-erase_self, lookup-set_ne,
  lookup-set_self,
}
use llmops_rag_api.RateLimit.Eviction.{IsBounded, allow-IsBounded, put_known-IsBounded}

abbrev pub Call : Type 0
Call = Text × ℕ

-- The times of the calls of `key` that were let through.
unfoldable pub grants : Rounding → Text → List Call → RateLimiter → List ℕ
grants rounding key [] l = []
grants rounding key ((k, now) ∷ calls) l =
    let answer = allow rounding k now l in
    let rest = grants rounding key calls answer.1 in
    if text_eq k key && answer.0.0 then now ∷ rest else rest

-- The client has a bucket after each call: no call of another client evicts it.
unfoldable pub Kept : Rounding → Text → List Call → RateLimiter → Type 0
Kept rounding key [] l = Unit
Kept rounding key ((k, now) ∷ calls) l =
    let after = (allow rounding k now l).1 in
    (lookup key after.buckets ≢ none) × Kept rounding key calls after

abbrev pub last_of : ℕ → List ℕ → ℕ
last_of t [] = t
last_of t (u ∷ us) = last_of u us

-- What a bucket allows: its tokens, and the refill from its time to the last grant.
abbrev Within : ℕ → Bucket → List ℕ → Type 0
Within rate b [] = Unit
Within rate b (t ∷ ts) =
    length (t ∷ ts) * token + neg_part b.tokens + b.updated * rate
    ≤ pos_part b.tokens + last_of t ts * rate

lookup-delete_all :
    (j : Text) (gone : Dict Bucket) (d : Dict Bucket)
    → IsDict d
    → (lookup j (delete_all gone d) ≡ none) ⊎ (lookup j (delete_all gone d) ≡ lookup j d)
unfolding delete_all
lookup-delete_all j [] d h = inr refl
lookup-delete_all j ((k, b) ∷ gone) d h =
    let ih = lookup-delete_all j gone (erase k d) (erase-IsDict k d h) in
    elim (Bool-cases (text_eq j k)) [
      | inl e ↦
          let same : lookup j (erase k d) ≡ none =
            rw (text_eq_sound j k e) (lookup-erase_self k d h) in
          elim ih [ inl n ↦ inl n | inr m ↦ inl (m ∙ same) ]
      | inr e ↦
          let differ = lookup-erase_ne j k d (ground (arith, text_eq_iff j k)) in
          elim ih [ inl n ↦ inl n | inr m ↦ inr (m ∙ differ) ]
    ]

lookup-evict :
    (j : Text) (l : RateLimiter)
    → IsDict l.buckets
    → (lookup j (evict l).buckets ≡ none) ⊎ (lookup j (evict l).buckets ≡ lookup j l.buckets)
unfolding evict
lookup-evict j l h = elim (Bool-cases (leb (length l.buckets) l.max_keys)) [
  | inl e ↦ rw e (inr refl)
  | inr e ↦ rw e (lookup-delete_all j (oldest_half l.buckets) l.buckets h)
]

allow-rate :
    (rounding : Rounding) (key : Text) (now : ℕ) (l : RateLimiter)
    → (allow rounding key now l).1.rate ≡ l.rate
unfolding allow admit_new spend_token evict
allow-rate rounding key now l = ground arith

allow_known :
    (rounding : Rounding) (key : Text) (now : ℕ) (l : RateLimiter) (b : Bucket)
    → enabled l ≡ true
    → lookup key l.buckets ≡ some b
    → allow rounding key now l ≡ spend_token rounding key now (refill now l.rate b) l
unfolding allow
allow_known rounding key now l b on e = rw on (rw e refl)

allow_new :
    (rounding : Rounding) (key : Text) (now : ℕ) (l : RateLimiter)
    → enabled l ≡ true
    → lookup key l.buckets ≡ none
    → allow rounding key now l
      ≡ ((true, 0), put_bucket key (pos (l.rate * token - token)) now (evict l))
unfolding allow admit_new
allow_new rounding key now l on e = rw on (rw e refl)

-- A call of another client leaves a bucket as it is, unless it evicts it.
pub allow_other :
    (rounding : Rounding) (key other : Text) (now : ℕ) (l : RateLimiter)
    → IsDict l.buckets
    → enabled l ≡ true
    → key ≢ other
    → let after = (allow rounding other now l).1 in
      (lookup key after.buckets ≡ none) ⊎ (lookup key after.buckets ≡ lookup key l.buckets)
allow_other rounding key other now l h on ne = elim (Option-cases (lookup other l.buckets)) [
  | inl e ↦ rw (allow_new rounding other now l on e) (
      unfold put_bucket in
      (rw (lookup-set_ne key other _ (evict l).buckets ne) (lookup-evict key l h)))
  | inr (b, e) ↦ rw (allow_known rounding other now l b on e) (
      unfold spend_token in
      elim (Bool-cases (leb_ℤ (pos token) (refill now l.rate b))) [
        | inl e' ↦ rw e' (inr (lookup-set_ne key other _ l.buckets ne))
        | inr e' ↦ rw e' (inr (lookup-set_ne key other _ l.buckets ne))
      ])
]

-- `b` held at least as many tokens at its time as `tokens` at the time `now`, with the refill between.
abbrev Covers : ℕ → Bucket → ℤ → ℕ → Type 0
Covers rate b tokens now =
    pos_part tokens + neg_part b.tokens + b.updated * rate
    ≤ pos_part b.tokens + now * rate + neg_part tokens

refill-Covers : (now rate : ℕ) (b : Bucket) → Covers rate b (refill now rate b) now
unfolding refill
refill-Covers now rate b = ground arith

refill-le-burst : (now rate : ℕ) (b : Bucket) → pos_part (refill now rate b) ≤ rate * token
unfolding refill
refill-le-burst now rate b = ground arith

Within-grant :
    (rate now : ℕ) (b : Bucket) (tokens : ℤ) (ts : List ℕ)
    → Covers rate b tokens now
    → token ≤ pos_part tokens
    → Within rate (record { tokens = pos (pos_part tokens - token); updated = now }) ts
    → Within rate b (now ∷ ts)
Within-grant rate now b (pos t) [] c e w = omega arith
Within-grant rate now b (negsuc t) [] c e w = omega arith
Within-grant rate now b (pos t) (u ∷ ts) c e w = omega arith
Within-grant rate now b (negsuc t) (u ∷ ts) c e w = omega arith

Within-deny :
    (rate now : ℕ) (b : Bucket) (tokens : ℤ) (ts : List ℕ)
    → Covers rate b tokens now
    → Within rate (record { tokens = tokens; updated = now }) ts
    → Within rate b ts
Within-deny rate now b tokens [] c w = tt
Within-deny rate now b tokens (u ∷ ts) c w = omega arith

-- A refilled bucket meets a call: what the rest of the history allows it, and what follows for `b`.
spend-Within :
    (rounding : Rounding) (key : Text) (now : ℕ) (l : RateLimiter) (b : Bucket) (tokens : ℤ)
    → (rest : RateLimiter → List ℕ) (Stays : RateLimiter → Type 0) → Covers l.rate b tokens now
    → ((l' : RateLimiter) (b' : Bucket)
        → l' ≡ put_bucket key b'.tokens b'.updated l
        → Stays l'
        → Within l.rate b' (rest l'))
    → Stays (spend_token rounding key now tokens l).1
    → let answer = spend_token rounding key now tokens l in
      Within l.rate b (if answer.0.0 then now ∷ rest answer.1 else rest answer.1)
unfolding spend_token
spend-Within rounding key now l b tokens rest Stays c later stays =
    elim (Bool-cases (leb_ℤ (pos token) tokens)) [
      | inl e ↦
          let left : ℤ = pos (pos_part tokens - token) in
          rw e (
            Within-grant l.rate now b tokens (rest (put_bucket key left now l)) c (ground arith) (
              later (put_bucket key left now l) (record { tokens = left; updated = now }) refl
                (rw e at stays)))
      | inr e ↦ rw e (
          Within-deny l.rate now b tokens (rest (put_bucket key tokens now l)) c (
            later (put_bucket key tokens now l) (record { tokens = tokens; updated = now }) refl
              (rw e at stays)))
    ]

put-lookup :
    (key : Text) (tokens : ℤ) (now : ℕ) (l : RateLimiter)
    → lookup key (put_bucket key tokens now l).buckets
      ≡ some (record { tokens = tokens; updated = now })
unfolding put_bucket
put-lookup key tokens now l = lookup-set_self key _ l.buckets

put-enabled :
    (key : Text) (tokens : ℤ) (now : ℕ) (l : RateLimiter)
    → (enabled (put_bucket key tokens now l) ≡ enabled l)
      × ((put_bucket key tokens now l).rate ≡ l.rate)
unfolding put_bucket enabled
put-enabled key tokens now l = (refl, refl)

evict-enabled : (l : RateLimiter) → enabled (evict l) ≡ enabled l
unfolding evict enabled
evict-enabled l = ground arith

enabled-burst : (l : RateLimiter) → enabled l ≡ true → token ≤ l.rate * token
unfolding enabled
enabled-burst l on = let some_rate : 0 < l.rate = ground arith in omega arith

grants_self :
    (rounding : Rounding) (key : Text) (now : ℕ) (calls : List Call) (l : RateLimiter)
    → let answer = allow rounding key now l in
      let rest = grants rounding key calls answer.1 in
      grants rounding key ((key, now) ∷ calls) l ≡ (if answer.0.0 then now ∷ rest else rest)
unfolding grants
grants_self rounding key now calls l = rw (text_eq_refl key)

grants_other :
    (rounding : Rounding) (key k : Text) (now : ℕ) (calls : List Call) (l : RateLimiter)
    → text_eq k key ≡ false
    → grants rounding key ((k, now) ∷ calls) l
      ≡ grants rounding key calls (allow rounding k now l).1
unfolding grants
grants_other rounding key k now calls l e = rw e refl

-- A client's own call. `b` is its bucket, or one that is at least as full.
self-Within :
    (rounding : Rounding) (key : Text) (now : ℕ) (calls : List Call) (l : RateLimiter)
    (b c : Bucket)
    → ((l' : RateLimiter) (b' : Bucket)
        → IsBounded l'
        → enabled l' ≡ true
        → lookup key l'.buckets ≡ some b'
        → Kept rounding key calls l'
        → Within l'.rate b' (grants rounding key calls l'))
    → IsBounded l
    → enabled l ≡ true
    → lookup key l.buckets ≡ some c
    → Covers l.rate b (refill now l.rate c) now
    → Kept rounding key calls (allow rounding key now l).1
    → Within l.rate b (grants rounding key ((key, now) ∷ calls) l)
self-Within rounding key now calls l b c later h on e covers kept =
    let tokens = refill now l.rate c in
    let same = allow_known rounding key now l c on e in
    rw (grants_self rounding key now calls l) (
      rw same (
        spend-Within rounding key now l b tokens (grants rounding key calls)
          (Kept rounding key calls) covers
          (λ l' b' made stays.
            let l'' = put_bucket key b'.tokens b'.updated l in
            let same' = put-enabled key b'.tokens b'.updated l in
            rw made (
              subst (λ r. Within r b' (grants rounding key calls l'')) same'.1
                (later l'' b' (put_known-IsBounded key b'.tokens b'.updated l e h) (same'.0 ∙ on)
                  (put-lookup key b'.tokens b'.updated l) (rw made at stays))))
          (rw same at kept)))

module _ (rounding : Rounding) (key : Text) where
  grants-Within :
      (calls : List Call) (l : RateLimiter) (b : Bucket)
      → IsBounded l
      → enabled l ≡ true
      → lookup key l.buckets ≡ some b
      → Kept rounding key calls l
      → Within l.rate b (grants rounding key calls l)
  unfolding Kept
  grants-Within [] l b h on e kept = unfold grants in tt
  grants-Within ((k, now) ∷ calls) l b h on e kept = elim (Bool-cases (text_eq k key)) [
    | inl same ↦
        let is_key = text_eq_sound k key same in
        rw is_key (
          self-Within rounding key now calls l b b (grants-Within calls) h on e
            (refill-Covers now l.rate b) (rw is_key at (kept.1)))
    | inr differs ↦
        let l' = (allow rounding k now l).1 in
        let ne : key ≢ k = ground (arith, text_eq_iff k key) in
        let stays : lookup key l'.buckets ≡ some b =
          elim (allow_other rounding key k now l h.distinct on ne) [
            | inl gone ↦ absurd (kept.0 gone)
            | inr same ↦ same ∙ e
          ] in
        let same_rate = allow-rate rounding k now l in
        rw (grants_other rounding key k now calls l differs) (
          rw same_rate at (
            grants-Within calls l' b (allow-IsBounded rounding k now l h)
              (unfold enabled in rw same_rate on) stays kept.1))
  ]

  new-Within :
      (calls : List Call) (now : ℕ) (l : RateLimiter)
      → IsBounded l
      → enabled l ≡ true
      → lookup key l.buckets ≡ none
      → Kept rounding key calls (allow rounding key now l).1
      → Within l.rate
          (record { tokens = pos (l.rate * token); updated = now })
          (grants rounding key ((key, now) ∷ calls) l)
  new-Within calls now l h on e kept =
      let same = allow_new rounding key now l on e in
      let b : Bucket = record { tokens = pos (l.rate * token - token); updated = now } in
      let after = put_bucket key b.tokens now (evict l) in
      let same_rate : after.rate ≡ l.rate = rw same at (allow-rate rounding key now l) in
      rw (grants_self rounding key now calls l) (
        rw same (
          Within-grant l.rate now (record { tokens = pos (l.rate * token); updated = now })
            (pos (l.rate * token)) (grants rounding key calls after) (omega arith)
            (enabled-burst l on)
            (subst (λ r. Within r b (grants rounding key calls after)) same_rate
              (grants-Within calls after b (rw same at (allow-IsBounded rounding key now l h))
                ((put-enabled key b.tokens now (evict l)).0 ∙ (evict-enabled l ∙ on))
                (put-lookup key b.tokens now (evict l)) (rw same at kept)))))

  -- In any history that begins with a call of the client at the time `start`, and over which the
  -- client keeps its bucket: up to the last call that is let through, at the time `last`, at most
  -- `rate` requests pass and those of the refill from `start` to `last`, whatever the order in which
  -- the threads take the lock and whatever other clients send.
  pub grants_bounded :
      (start : ℕ) (calls : List Call) (l : RateLimiter) {t : ℕ} {ts : List ℕ}
      → IsBounded l
      → enabled l ≡ true
      → Kept rounding key ((key, start) ∷ calls) l
      → grants rounding key ((key, start) ∷ calls) l ≡ t ∷ ts
      → length (t ∷ ts) * token + start * l.rate ≤ l.rate * token + last_of t ts * l.rate
  unfolding Kept
  grants_bounded start calls l {t} {ts} h on kept e =
      let full : Bucket = record { tokens = pos (l.rate * token); updated = start } in
      let within : Within l.rate full (grants rounding key ((key, start) ∷ calls) l) =
        elim (Option-cases (lookup key l.buckets)) [
          | inl new ↦ new-Within calls start l h on new kept.1
          | inr (c, known) ↦
              self-Within rounding key start calls l full c (grants-Within calls) h on known
                (omega (arith, refill-le-burst start l.rate c)) kept.1
        ] in
      let w : Within l.rate full (t ∷ ts) = rw e at within in omega (arith, w)
