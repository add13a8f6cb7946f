-- ===== src/Llm/Pricing/Sums.antt =====
-- The cost of a call is exact: it may be counted call by call, or over all tokens at once.
use tech_screen_ai.Prelude.{ℕ, ◌+◌, ◌≡◌, Option, none, some, String, arith, string_eq}
use tech_screen_ai.Prelude.Int.{pos}
use tech_screen_ai.Llm.Pricing.{PricingTable, cost_for}
use native.Mathlib.Nat.{mul-add}

abbrev pub both : Option ℕ → Option ℕ → Option ℕ
both (some a) (some b) = some (a + b)
both _ _ = none

-- The cost of two calls of one model is the cost of one call with the tokens of both, and an
-- unknown model has no cost either way.
pub cost_for-sum :
    (table : PricingTable) (model : String) (i j o p : ℕ)
    → both (cost_for table model (pos i) (pos o)) (cost_for table model (pos j) (pos p))
      ≡ cost_for table model (pos (i + j)) (pos (o + p))
unfolding cost_for
cost_for-sum table model i j o p = grind (arith, mul-add)
