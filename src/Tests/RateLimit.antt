-- ===== src/Tests/RateLimit.antt =====
-- Tests of the model of src/app/rate_limit.py.
use llmops_rag_api.RateLimit.{
  RateLimiter, allow, token, evict, updated_of, oldest_half, ticks_per_second, enabled, admit_new,
  spend_token, refill, retry_after, delete_all, burst,
}
use llmops_rag_api.Text.{Text, codes, text_eq}
use llmops_rag_api.Prelude.{
  [], ℕ, List, pos, length, ◌+◌, ◌*◌, ◌/◌, ◌≤◌, ◌≡◌, refl, true, ◌∷◌, arith, All,
}
use llmops_rag_api.RateLimit.Allowance.{grants, Kept, Call, grants_bounded}
use llmops_rag_api.Dict.{IsDict, lookup, set, erase}
use llmops_rag_api.Rounding.{rounding_half_up}
use llmops_rag_api.RateLimit.RetryAfter.{allow_after_wait, retry_after_header}
use llmops_rag_api.RateLimit.Eviction.{evict_oldest, IsBounded, allow-IsBounded}
use llmops_rag_api.Prelude.Sort.{sort_by}

abbrev alice : Text
alice = codes "alice"

abbrev bob : Text
bob = codes "bob"

-- Two requests a minute, and a table of at most two clients.
abbrev small : RateLimiter
small = record { rate = 2; max_keys = 2; buckets = [] }

abbrev second : ℕ → ℕ
second n = n * ticks_per_second

run : Text → List Call → RateLimiter → List ℕ
unfolding grants allow enabled lookup set admit_new spend_token evict refill retry_after text_eq
    delete_all oldest_half sort_by erase burst
run = grants rounding_half_up

-- The whole allowance at once, then one request every thirty seconds.
burst_then_refill :
    run alice
      ((alice, second 5)
        ∷ (alice, second 6)
        ∷ (bob, second 6)
        ∷ (alice, second 7)
        ∷ (alice, second 36)
        ∷ (alice, second 37)
        ∷ [])
      small
    ≡ second 5 ∷ second 6 ∷ second 36 ∷ []
unfolding run
burst_then_refill = refl

abbrev history : List Call
history = (alice, second 6) ∷ (bob, second 6) ∷ (alice, second 7) ∷ (alice, second 36) ∷ []

small-IsBounded : IsBounded small
unfolding IsDict
small-IsBounded = record { distinct = tt; size = omega arith }

history-Kept : Kept rounding_half_up alice ((alice, second 5) ∷ history) small
unfolding run Kept
history-Kept = ((λ e. cc), ((λ e. cc), ((λ e. cc), ((λ e. cc), ((λ e. cc), tt)))))

grants_bounded_example : 3 * token + second 5 * 2 ≤ 2 * token + second 36 * 2
unfolding run
grants_bounded_example =
    grants_bounded rounding_half_up alice (second 5) history small {t = second 5}
      {ts = second 6 ∷ second 36 ∷ []} small-IsBounded (unfold enabled in refl) history-Kept refl

full : RateLimiter
full = record small {
  buckets =
      (alice, record { tokens = pos 0; updated = second 3 })
      ∷ (bob, record { tokens = pos 0; updated = second 2 })
      ∷ (codes "carol", record { tokens = pos 0; updated = second 4 })
      ∷ [];
}

full-IsBounded : IsBounded full
unfolding full IsDict lookup text_eq
full-IsBounded = record { distinct = (refl, (refl, (refl, tt))); size = omega arith }

evict_oldest_example :
    (length (evict full).buckets + 3 / 2 ≡ 3)
    × All
        (λ gone. All (λ stays. updated_of gone ≤ updated_of stays) (evict full).buckets)
        (oldest_half full.buckets)
unfolding full
evict_oldest_example = evict_oldest full full-IsBounded.distinct (omega arith)

allow-IsBounded_example : IsBounded (allow rounding_half_up (codes "dave") (second 9) full).1
allow-IsBounded_example =
    allow-IsBounded rounding_half_up (codes "dave") (second 9) full full-IsBounded

-- Alice has no token left, and waits for thirty seconds.
abbrev drained : RateLimiter
drained = record small { buckets = (alice, record { tokens = pos 0; updated = second 10 }) ∷ [] }

allow_after_wait_example : (allow rounding_half_up alice (second 41) drained).0 ≡ (true, 0)
unfolding run
allow_after_wait_example =
    allow_after_wait rounding_half_up alice (second 10) (second 41) 3000 drained drained refl refl
      refl (unfold retry_after_header in omega arith)
