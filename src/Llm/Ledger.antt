-- ===== src/Llm/Ledger.antt =====
-- The two cost ledgers: app/backend/llm/cost_ledger.py in memory, and persistent_cost.py, whose
-- total is the sum over the trace (persistent_trace.py). Amounts are those of Llm/Pricing.
use tech_screen_ai.Prelude.{
  ℕ, ◌+◌, Bool, true, false, Option, none, some, List, [], ◌∷◌, ltb, if◌then◌else◌, ◌==◌, string_eq,
}
use tech_screen_ai.Prelude.Dict.{Dict, lookup, insert}
use tech_screen_ai.Prelude.Int.{ℤ, pos, negsuc}
use tech_screen_ai.Llm.Trace.{TraceRecord}
use tech_screen_ai.Orchestrator.Command.{Uuid}

abbrev pub Totals : Type 0
Totals = Dict Uuid ℕ

abbrev or_zero : Option ℕ → ℕ
or_zero none = 0
or_zero (some total) = total

-- `InMemoryCostLedger.session_total` and `add`; `none` is `ValueError`.
unfoldable pub session_total : Totals → Uuid → ℕ
session_total totals id = or_zero (lookup id totals)

unfoldable pub add : Totals → Uuid → ℤ → Option Totals
unfolding session_total
add totals id (negsuc n) = none
add totals id (pos cost) = some (insert id (session_total totals id + cost) totals)

-- `session_cost_total`: the sum of the costs in the session's rows. `column` is a cost as the column
-- NUMERIC(12, 6) holds it, which rounds to a millionth of a dollar.
unfoldable pub session_cost_total : (ℕ → ℕ) → List TraceRecord → Uuid → ℕ
session_cost_total column [] id = 0
session_cost_total column (r ∷ records) id =
    (if r.session_id == id then column r.cost_usd else 0) + session_cost_total column records id

-- `PostgresCostLedger.add`: checked, then discarded; it raises at `true`.
unfoldable pub durable_add : Uuid → ℤ → Bool
durable_add id (pos cost) = false
durable_add id (negsuc n) = true

-- `guard_session_budget`, which raises at `true`; `enforced` is the predicate's answer, and no
-- predicate is `false`.
unfoldable pub guard_session_budget : (ℕ → ℕ) → ℕ → Bool → List TraceRecord → Uuid → Bool
unfolding session_cost_total
guard_session_budget column ceiling enforced records id =
    if ltb (session_cost_total column records id) ceiling then false else enforced
