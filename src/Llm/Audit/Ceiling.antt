-- ===== src/Llm/Audit/Ceiling.antt =====
-- At the ceiling of the session's budget no call reaches the backend.
use tech_screen_ai.Prelude.{
  ℕ, ◌≡◌, refl, String, Bool, true, false, Option, none, some, [], leb, arith, string_eq,
}
use tech_screen_ai.Agents.Call.{ModelCallRequest, WrapperError}
use tech_screen_ai.Llm.Audit.{Log, empty_log, audited}
use tech_screen_ai.Llm.Client.{
  halted, persist_trace, fail, within_budget, check_budget, probed, check_price, agent_config,
  resolve, call_model,
}
use tech_screen_ai.Llm.Reply.{Loaded, Client, ModelReply, Ending, failure}
use tech_screen_ai.Llm.Models.{ModelConfig}
use tech_screen_ai.Llm.Pricing.{PricingTable}
use tech_screen_ai.Llm.Trace.{TraceOutcome}

-- A refusal: for the budget, for the configuration, the error of the sink in its place, or the
-- exception of a file that cannot be read.
abbrev pub IsRefusal : ModelReply → Type 0
IsRefusal (ModelReply.raised WrapperError.budget_exceeded) = Unit
IsRefusal (ModelReply.raised WrapperError.config_error) = Unit
IsRefusal (ModelReply.raised WrapperError.trace_write_error) = Unit
IsRefusal ModelReply.crashed = Unit
IsRefusal _ = ⊥

-- The call was refused, and neither the backend nor the ledger was touched.
abbrev pub Untouched : {V : Type 0} → ModelReply × (V × Log) → Type 0
Untouched (reply, (v, log)) = IsRefusal reply × (log.generated ≡ 0) × (log.charges ≡ [])

module _ {V : Type 0} (client : Client V) (request : ModelCallRequest) where
  halted-Untouched :
      (e : WrapperError) (ended : Bool) (v : V) (log : Log)
      → IsRefusal (ModelReply.raised e)
      → log.generated ≡ 0
      → log.charges ≡ []
      → Untouched (halted (audited client) request (ModelReply.raised e) (ended, (v, log)))
  unfolding halted
  halted-Untouched e true v log h calls charges = (tt, calls, charges)
  halted-Untouched e false v log h calls charges = (h, calls, charges)

  fail-Untouched :
      (started : ℕ) (model : String) (ending : Ending) (e : WrapperError) (v : V)
      → IsRefusal (ModelReply.raised e)
      → Untouched (fail (audited client) request started model ending e (v, empty_log))
  unfolding fail persist_trace
  fail-Untouched started model ending e v h = halted-Untouched e _ _ _ h refl refl

  check_budget-Untouched :
      (started : ℕ) (table : PricingTable) (model : String) (config : ModelConfig)
      (found : Option ℕ) (total : ℕ) (v : V)
      → found ≡ some total
      → leb client.budget total ≡ true
      → Untouched
          (check_budget (audited client) request started table model config (found, (v, empty_log)))
  unfolding check_budget within_budget
  check_budget-Untouched started table model config none total v e reached = absurd (ground arith)
  check_budget-Untouched started table model config (some spent) total v e reached =
      let same : leb client.budget spent ≡ true = ground (arith, e) in
      rw same (
        fail-Untouched started model (failure TraceOutcome.budget_exceeded 1)
          WrapperError.budget_exceeded v tt)

  no_config-Untouched :
      (started : ℕ) (model : String) (v : V)
      → Untouched (
          fail
            (audited client)
            request
            started
            model
            (failure TraceOutcome.config_error 1)
            WrapperError.config_error
            (v, empty_log))
  no_config-Untouched started model v =
      fail-Untouched started model (failure TraceOutcome.config_error 1) WrapperError.config_error v
        tt

  module _ (total : ℕ) (v : V) (asked : (client.session_total request.session_id v).0 ≡ some total)
      (reached : leb client.budget total ≡ true) where
    probed-Untouched :
        (started : ℕ) (table : PricingTable) (model : String) (config : ModelConfig)
        (cost : Option ℕ)
        → Untouched (probed (audited client) request started table model config cost (v, empty_log))
    unfolding probed
    probed-Untouched started table model config none = no_config-Untouched started model v
    probed-Untouched started table model config (some cost) =
        check_budget-Untouched started table model config _ total _ asked reached

    check_price-Untouched :
        (started : ℕ) (table : Loaded PricingTable) (model : String) (config : ModelConfig)
        → Untouched (check_price (audited client) request started table model config (v, empty_log))
    unfolding check_price
    check_price-Untouched started Loaded.unread model config = (tt, refl, refl)
    check_price-Untouched started Loaded.refused model config = no_config-Untouched started model v
    check_price-Untouched started (Loaded.loaded table) model config =
        probed-Untouched started table model config _

    resolve-Untouched :
        (started : ℕ) (config : Loaded ModelConfig)
        → Untouched (resolve (audited client) request started config (v, empty_log))
    unfolding resolve
    resolve-Untouched started Loaded.unread = (tt, refl, refl)
    resolve-Untouched started Loaded.refused = no_config-Untouched started _ v
    resolve-Untouched started (Loaded.loaded config) =
        check_price-Untouched started client.pricing _ config

  -- When the ledger's total for the session is at the budget or above, a call of the model is
  -- refused, for the budget, for the configuration, by the sink or by a file that cannot be read,
  -- and neither calls the backend nor charges the ledger.
  pub call_model-AtCeiling :
      (total : ℕ) (v : V)
      → (client.session_total request.session_id (client.perf_counter v).1).0 ≡ some total
      → leb client.budget total ≡ true
      → Untouched (call_model (audited client) request (v, empty_log))
  unfolding call_model agent_config
  call_model-AtCeiling total v asked reached =
      resolve-Untouched total (client.perf_counter v).1 asked reached (client.perf_counter v).0
        (agent_config client request client.models)
