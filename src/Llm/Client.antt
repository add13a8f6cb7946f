-- ===== src/Llm/Client.antt =====
-- `call_model` of app/backend/llm/vertex.py, step by step.
use tech_screen_ai.Prelude.{
  ℕ, ◌-◌, ◌/◌, String, Bool, true, false, Option, none, some, leb, string_eq,
}
use tech_screen_ai.Prelude.Int.{pos}
use tech_screen_ai.Json.{Fields}
use tech_screen_ai.Agents.Call.{ModelCallRequest, WrapperError}
use tech_screen_ai.Llm.Backend.{RawBackendResult, Attempted, call_with_retries}
use tech_screen_ai.Llm.Models.{ModelConfig, ModelsConfig, for_agent}
use tech_screen_ai.Llm.Pricing.{PricingTable, cost_for}
use tech_screen_ai.Llm.Schema.{Parsed, parse_and_validate}
use tech_screen_ai.Llm.Trace.{TraceOutcome, TraceRecord}
use tech_screen_ai.Orchestrator.Command.{Uuid}
use tech_screen_ai.Orchestrator.State.{Time}
use tech_screen_ai.Llm.Reply.{
  ModelReply, Loaded, Client, override_or, min, at_least_one, failure_outcome, Ending, failure,
  rejection, success, version_of, text_of, input_of, output_of,
}

module _ {V : Type 0} (client : Client V) (request : ModelCallRequest) where
  unfoldable pub build_trace_record : String → Ending → ℕ → Uuid × Time → TraceRecord
  build_trace_record model ending latency_ms (id, now) = record {
    id = id;
    created_at = now;
    agent = request.agent;
    session_id = request.session_id;
    model = model;
    model_version = version_of ending.raw;
    prompt_sha256 = client.prompt_sha request model;
    outcome = ending.outcome;
    attempts = ending.attempts;
    latency_ms = latency_ms;
    input_tokens = input_of ending.raw;
    output_tokens = output_of ending.raw;
    cost_usd = ending.cost_usd;
    response_text = text_of ending.raw;
    parsed = ending.parsed;
  }

  -- The record of an ending, stamped.
  unfoldable pub stamped : ℕ → String → Ending → V → TraceRecord × V
  unfolding build_trace_record
  stamped started model ending v =
      let (now, u) = client.perf_counter v in
      let (stamp, t) = client.stamp u in
      (build_trace_record model ending ((now - started) / 1000000) stamp, t)

  -- `_persist_trace`, and what follows it: an exception of the sink takes its place.
  unfoldable pub halted : ModelReply → Bool × V → ModelReply × V
  halted reply (true, v) = (ModelReply.raised WrapperError.trace_write_error, v)
  halted reply (false, v) = (reply, v)

  unfoldable pub persist_trace : ModelReply → TraceRecord × V → ModelReply × V
  unfolding halted
  persist_trace reply (record_, v) = halted reply (client.write record_ v)

  -- `_emit_failure_trace`, and the error that is raised after it.
  unfoldable pub fail : ℕ → String → Ending → WrapperError → V → ModelReply × V
  unfolding stamped persist_trace
  fail started model ending e v =
      persist_trace (ModelReply.raised e) (stamped started model ending v)

  -- Steps 8 to 10: the record of a success, and the result, which carries its id.
  unfoldable pub succeeded : RawBackendResult → ℕ → Option Fields → TraceRecord × V → ModelReply × V
  unfolding persist_trace
  succeeded raw cost parsed (record_, v) =
      persist_trace
        (ModelReply.returned (record {
          text = raw.text;
          parsed = parsed;
          input_tokens = raw.input_tokens;
          output_tokens = raw.output_tokens;
          cost_usd = cost;
          latency_ms = record_.latency_ms;
          model = record_.model;
          model_version = raw.model_version;
          attempts = record_.attempts;
          trace_id = record_.id;
        }))
        (record_, v)

  unfoldable pub charged :
      ℕ → String → RawBackendResult → ℕ → ℕ → Option Fields → Bool × V → ModelReply × V
  unfolding stamped succeeded
  charged started model raw attempts cost parsed (true, v) = (ModelReply.crashed, v)
  charged started model raw attempts cost parsed (false, v) =
      succeeded raw cost parsed (stamped started model (success raw attempts cost parsed) v)

  -- Step 7, with the cost; a price that is missing is an error that no handler traces.
  unfoldable pub charge :
      ℕ → String → RawBackendResult → ℕ → Option Fields → Option ℕ → V → ModelReply × V
  unfolding charged
  charge started model raw attempts parsed none v = (ModelReply.raised WrapperError.config_error, v)
  charge started model raw attempts parsed (some cost) v =
      charged started model raw attempts cost parsed (client.add request.session_id cost v)

  -- A payload that misses the schema: its cost is traced, and the ledger is not charged.
  unfoldable pub reject : ℕ → String → RawBackendResult → ℕ → Option ℕ → V → ModelReply × V
  unfolding fail
  reject started model raw attempts none v = (ModelReply.raised WrapperError.config_error, v)
  reject started model raw attempts (some cost) v =
      fail started model (rejection raw attempts cost) (WrapperError.schema_error raw.text) v

  unfoldable pub cost_of : PricingTable → String → RawBackendResult → Option ℕ
  unfolding cost_for
  cost_of table model raw = cost_for table model (pos raw.input_tokens) (pos raw.output_tokens)

  -- Step 6 with a schema: the payload that was read, if it fits.
  unfoldable pub checked :
      ℕ → PricingTable → String → RawBackendResult → ℕ → Parsed → V → ModelReply × V
  unfolding charge reject cost_of
  checked started table model raw attempts Parsed.misfits v =
      reject started model raw attempts (cost_of table model raw) v
  checked started table model raw attempts Parsed.broken v = (ModelReply.crashed, v)
  checked started table model raw attempts (Parsed.fits parsed) v =
      charge started model raw attempts (some parsed) (cost_of table model raw) v

  unfoldable pub receive :
      ℕ → PricingTable → String → RawBackendResult → ℕ → Option Fields → V → ModelReply × V
  unfolding checked charge cost_of parse_and_validate
  receive started table model raw attempts none v =
      charge started model raw attempts none (cost_of table model raw) v
  receive started table model raw attempts (some schema) v =
      checked started table model raw attempts (parse_and_validate client.loads raw.text schema) v

  -- The ends of the retry loop: a result, and the three handlers.
  unfoldable pub after_attempts : ℕ → PricingTable → String → Attempted × V → ModelReply × V
  unfolding receive fail failure_outcome
  after_attempts started table model (Attempted.got raw n, v) =
      receive started table model raw n request.json_schema v
  after_attempts started table model (Attempted.gave_up e n, v) =
      fail started model (failure (failure_outcome e) (at_least_one n)) e v
  after_attempts started table model (Attempted.ran_out, v) =
      fail started model (failure TraceOutcome.timeout 1) WrapperError.timeout v
  after_attempts started table model (Attempted.broke, v) =
      fail started model (failure TraceOutcome.upstream_unavailable 1)
        WrapperError.upstream_unavailable v

  -- Step 5.
  unfoldable pub attempt : ℕ → PricingTable → String → ModelConfig → V → ModelReply × V
  unfolding after_attempts call_with_retries
  attempt started table model config v = after_attempts started table model (
      call_with_retries
        (client.generate request model config.temperature
          (min request.max_output_tokens config.max_output_tokens))
        client.sleep v)

  -- Step 4, outside the `try`.
  unfoldable pub selected : ℕ → PricingTable → String → ModelConfig → Bool × V → ModelReply × V
  unfolding attempt
  selected started table model config (true, v) = (ModelReply.crashed, v)
  selected started table model config (false, v) = attempt started table model config v

  -- Step 3, at the ceiling or not.
  unfoldable pub within_budget : Bool → ℕ → PricingTable → String → ModelConfig → V → ModelReply × V
  unfolding selected fail
  within_budget true started table model config v =
      fail started model (failure TraceOutcome.budget_exceeded 1) WrapperError.budget_exceeded v
  within_budget false started table model config v =
      selected started table model config (client.select request.agent v)

  unfoldable pub check_budget :
      ℕ → PricingTable → String → ModelConfig → Option ℕ × V → ModelReply × V
  unfolding within_budget
  check_budget started table model config (none, v) = (ModelReply.crashed, v)
  check_budget started table model config (some total, v) =
      within_budget (leb client.budget total) started table model config v

  -- Step 2: the price of no tokens, which finds an unknown model.
  unfoldable pub probed : ℕ → PricingTable → String → ModelConfig → Option ℕ → V → ModelReply × V
  unfolding check_budget fail
  probed started table model config none v =
      fail started model (failure TraceOutcome.config_error 1) WrapperError.config_error v
  probed started table model config (some cost) v =
      check_budget started table model config (client.session_total request.session_id v)

  unfoldable pub check_price : ℕ → Loaded PricingTable → String → ModelConfig → V → ModelReply × V
  unfolding probed fail cost_for
  check_price started Loaded.unread model config v = (ModelReply.crashed, v)
  check_price started Loaded.refused model config v =
      fail started model (failure TraceOutcome.config_error 1) WrapperError.config_error v
  check_price started (Loaded.loaded table) model config v =
      probed started table model config (cost_for table model (pos 0) (pos 0)) v

  unfoldable pub agent_config : Loaded ModelsConfig → Loaded ModelConfig
  unfolding for_agent
  agent_config Loaded.unread = Loaded.unread
  agent_config Loaded.refused = Loaded.refused
  agent_config (Loaded.loaded models) = elim (for_agent models request.agent) [
    | none ↦ Loaded.refused
    | some config ↦ Loaded.loaded config
  ]

  -- Step 1.
  unfoldable pub resolve : ℕ → Loaded ModelConfig → V → ModelReply × V
  unfolding check_price override_or fail
  resolve started Loaded.unread v = (ModelReply.crashed, v)
  resolve started Loaded.refused v =
      fail started (override_or request.model_override "unknown")
        (failure TraceOutcome.config_error 1) WrapperError.config_error v
  resolve started (Loaded.loaded config) v =
      check_price started client.pricing (override_or request.model_override config.model) config v

  unfoldable pub call_model : V → ModelReply × V
  unfolding resolve agent_config
  call_model v =
      let (started, u) = client.perf_counter v in resolve started (agent_config client.models) u
