-- ===== src/Llm/Pricing.antt =====
-- app/backend/llm/pricing.py: what a call costs. A price is a number of some small unit u per 1000
-- tokens, an amount a number of u/1000, so that the division by 1000 is exact.
pub mod Sums
use tech_screen_ai.Prelude.{ℕ, ◌+◌, ◌*◌, ◌<◌, ◌≡◌, String, Option, none, some, string_eq}
use tech_screen_ai.Prelude.Dict.{Dict, lookup}
use tech_screen_ai.Prelude.Int.{ℤ, pos, negsuc}

pub record ModelPricing : Type 0 where
  pub input_per_1k_tokens : ℕ
  pub output_per_1k_tokens : ℕ

abbrev pub PricingTable : Type 0
PricingTable = Dict String ModelPricing

abbrev priced : ℕ → ℕ → Option ModelPricing → Option ℕ
priced i o none = none
priced i o (some p) = some (p.input_per_1k_tokens * i + p.output_per_1k_tokens * o)

-- `none` is `ModelCallConfigError`: a negative count or an unknown model.
unfoldable pub cost_for : PricingTable → String → ℤ → ℤ → Option ℕ
cost_for table model (pos i) (pos o) = priced i o (lookup model table)
cost_for table model (negsuc i) o = none
cost_for table model (pos i) (negsuc o) = none
