-- ===== src/Tracking/Cost.antt =====
-- src/app/tracking/cost.py. Money is counted in units of 1e-8 USD, the last decimal that
-- `estimate_cost_usd` keeps. Each list price is a whole number of such units per token (0.15 USD per
-- million tokens is 15 units per token), so the sum before `round(usd, 8)` is a whole number of
-- units, and the rounding of the mathematical value changes nothing. Float error is not modelled.
pub mod Longest
use llmops_rag_api.Prelude.{ℕ, ◌+◌, ◌*◌, List, [], ◌∷◌, if◌then◌else◌, Option, none, some, String}
use llmops_rag_api.Rounding.{Rounding}
use llmops_rag_api.Text.{Text, codes, text_eq, starts_with}

pub record ModelPrice : Type 0 where
  pub input_per_token : ℕ
  pub output_per_token : ℕ

abbrev pub entry : String → ℕ → ℕ → Text × ModelPrice
entry name i o = (codes name, record { input_per_token = i; output_per_token = o })

abbrev pub gpt_4o_mini : ModelPrice
gpt_4o_mini = record { input_per_token = 15; output_per_token = 60 }

abbrev pub pricing : List (Text × ModelPrice)
pricing =
    (codes "gpt-4o-mini", gpt_4o_mini)
    ∷ (codes "gpt-4o", record { input_per_token = 250; output_per_token = 1000 })
    ∷ (codes "gpt-4.1-mini", record { input_per_token = 40; output_per_token = 160 })
    ∷ (codes "text-embedding-3-small", record { input_per_token = 2; output_per_token = 0 })
    ∷ (codes "text-embedding-3-large", record { input_per_token = 13; output_per_token = 0 })
    ∷ []

abbrev pub fallback : ModelPrice
fallback = gpt_4o_mini

-- `if model in PRICING: return PRICING[model]`
unfoldable pub exact_price : Text → List (Text × ModelPrice) → Option ModelPrice
exact_price model [] = none
exact_price model ((known, price) ∷ rest) =
    if text_eq known model then some price else exact_price model rest

-- `for known, price in PRICING.items(): if model.startswith(known): return price`
unfoldable pub prefix_price : Text → List (Text × ModelPrice) → Option ModelPrice
prefix_price model [] = none
prefix_price model ((known, price) ∷ rest) =
    if starts_with model known then some price else prefix_price model rest

abbrev pub or_price : Option ModelPrice → ModelPrice → ModelPrice
or_price none d = d
or_price (some p) d = p

unfoldable pub price_for : Text → ModelPrice
unfolding exact_price prefix_price
price_for model =
    or_price (exact_price model pricing) (or_price (prefix_price model pricing) fallback)

-- In units of 1e-8 USD.
unfoldable pub estimate_cost_usd : Text → ℕ → ℕ → ℕ
estimate_cost_usd model prompt_tokens completion_tokens =
    prompt_tokens * (price_for model).input_per_token
    + completion_tokens * (price_for model).output_per_token

-- `round(usd * rate, 6)`: the result is in units of 1e-6 INR, the rate in units of 1e-2 INR per USD.
unfoldable pub usd_to_inr : Rounding → ℕ → ℕ → ℕ
usd_to_inr rounding usd rate = rounding.round_ratio (usd * rate) 10000
