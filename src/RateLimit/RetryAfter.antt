-- ===== src/RateLimit/RetryAfter.antt =====
-- What the waiting time in an answer of src/app/rate_limit.py is worth to the client.
use llmops_rag_api.RateLimit.{
  RateLimiter, spend_token, deficit, retry_after, ticks_per_second, put_bucket, allow, admit_new,
  refill, Bucket, token, enabled,
}
use llmops_rag_api.Prelude.{
  ℕ, ℤ, ◌+◌, ◌*◌, ◌/◌, ◌≤◌, ◌<◌, ◌≡◌, false, arith, le-mul_right, true, some, pos_part, pos, refl,
  ◌∙◌, inl, inr, Bool, leb_ℤ, neg_part, Bool-cases, ltb, Option-cases, ltb→lt,
}
use llmops_rag_api.Rounding.{Rounding}
use llmops_rag_api.Text.{Text}
use llmops_rag_api.Dict.{lookup, lookup-set_self}

-- The seconds in the header `Retry-After` of src/app/main.py: `int(retry_after) + 1`.
unfoldable pub retry_after_header : ℕ → ℕ
retry_after_header retry_after = retry_after / 100 + 1

-- What a refusal says of the bucket.
spend_refused :
    (rounding : Rounding) (key : Text) (now : ℕ) (tokens : ℤ) (l : RateLimiter) (wait : ℕ)
    → 0 < l.rate
    → (spend_token rounding key now tokens l).0 ≡ (false, wait)
    → (wait ≡ rounding.round_ratio (deficit tokens * 100) (l.rate * ticks_per_second))
      × (pos_part tokens < token + neg_part tokens)
      × ((spend_token rounding key now tokens l).1 ≡ put_bucket key tokens now l)
unfolding spend_token retry_after
spend_refused rounding key now tokens l wait h e = ground arith

allow_refused :
    (rounding : Rounding) (key : Text) (now : ℕ) (l : RateLimiter) (wait : ℕ)
    → (allow rounding key now l).0 ≡ (false, wait)
    → (0 < l.rate)
      × (b : Bucket) × (allow rounding key now l
          ≡ spend_token rounding key now (refill now l.rate b) l)
unfolding allow admit_new enabled
allow_refused rounding key now l wait e = elim (Bool-cases (ltb 0 l.rate)) [
  | inr off ↦ absurd (bad (rw off at e))
  | inl on ↦ elim (Option-cases (lookup key l.buckets)) [
    | inl new ↦ absurd (bad (rw new at (rw on at e)))
    | inr (b, known) ↦ (ltb→lt 0 l.rate on, b, rw on (rw known refl))
  ]
]
  where
    bad : {n : ℕ} → ◌≡◌ {A = Bool × ℕ} (true, n) (false, wait) → ⊥
    bad h = cc

-- Waiting for the seconds of the header refills what was missing.
waited :
    (rounding : Rounding) (rate now later missing : ℕ)
    → 0 < rate
    → now
        + retry_after_header (rounding.round_ratio (missing * 100) (rate * ticks_per_second))
          * ticks_per_second
      ≤ later
    → missing + now * rate ≤ later * rate
unfolding retry_after_header
waited rounding rate now later missing h l =
    let d = rate * ticks_per_second in
    let q = rounding.round_ratio (missing * 100) d in
    let near = rounding.not_below (missing * 100) d (omega arith) in
    let seconds : q + 1 ≤ (q / 100 + 1) * 100 = omega arith in
    let grown : (now + (q / 100 + 1) * ticks_per_second) * rate ≤ later * rate =
      le-mul_right _ _ rate l in
    let long : (q + 1) * d ≤ (q / 100 + 1) * 100 * d = le-mul_right _ _ d seconds in
    omega (arith, near, grown, long)

refilled :
    (later now rate : ℕ) (tokens : ℤ)
    → 0 < rate
    → token + neg_part tokens + now * rate ≤ pos_part tokens + later * rate
    → leb_ℤ (pos token) (refill later rate (record { tokens = tokens; updated = now })) ≡ true
unfolding refill
refilled later now rate tokens h l = ground arith

allow_refilled :
    (rounding : Rounding) (key : Text) (later : ℕ) (l : RateLimiter) (b : Bucket)
    → lookup key l.buckets ≡ some b
    → leb_ℤ (pos token) (refill later l.rate b) ≡ true
    → (allow rounding key later l).0 ≡ (true, 0)
unfolding allow spend_token
allow_refilled rounding key later l b known e = elim (Bool-cases (enabled l)) [
  | inr off ↦ rw off refl
  | inl on ↦ rw on (rw known (rw e refl))
]

-- A client that was refused, keeps its bucket and waits for the seconds of the header is let through.
-- `l'` is the limiter at the later time: any that has the client's bucket as the refusal left it.
pub allow_after_wait :
    (rounding : Rounding) (key : Text) (now later wait : ℕ) (l l' : RateLimiter)
    → (allow rounding key now l).0 ≡ (false, wait)
    → l'.rate ≡ l.rate
    → lookup key l'.buckets ≡ lookup key (allow rounding key now l).1.buckets
    → now + retry_after_header wait * ticks_per_second ≤ later
    → (allow rounding key later l').0 ≡ (true, 0)
allow_after_wait rounding key now later wait l l' refused same_rate kept waits =
    let (some_rate, b, same) = allow_refused rounding key now l wait refused in
    let tokens = refill now l.rate b in
    let r = spend_refused rounding key now tokens l wait some_rate (rw same at refused) in
    let left : Bucket = record { tokens = tokens; updated = now } in
    let known : lookup key l'.buckets ≡ some left =
      kept ∙ rw same (rw r.2 (unfold put_bucket in lookup-set_self key left l.buckets)) in
    let full = waited rounding l.rate now later (deficit tokens) some_rate (rw r.0 at waits) in
    let lacks : deficit tokens + pos_part tokens ≡ token + neg_part tokens =
      unfold deficit in omega (arith, r.1) in
    allow_refilled rounding key later l' left known
      (rw same_rate (refilled later now l.rate tokens some_rate (omega (arith, full, lacks))))
