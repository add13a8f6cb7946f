-- ===== src/Llm/Audit/Calls.antt =====
-- Every call is traced exactly once, calls the backend at most three times, and charges the ledger
-- for a success alone.
use tech_screen_ai.Prelude.{
  ℕ, ◌≤◌, ◌≡◌, refl, ap, String, Bool, true, false, Option, none, some, is_some, [], leb, arith,
  inl, string_eq,
}
use tech_screen_ai.Prelude.Int.{pos}
use tech_screen_ai.Agents.Call.{ModelCallRequest, WrapperError}
use tech_screen_ai.Llm.Audit.{Log, empty_log, audited, Reports, CallsFit, charges_for, Audited}
use tech_screen_ai.Llm.Audit.Retries.{Counts, Looped, call_with_retries-Looped}
use tech_screen_ai.Llm.Backend.{Attempted}
use tech_screen_ai.Llm.Client.{
  fail, after_attempts, attempt, selected, within_budget, check_budget, probed, check_price,
  agent_config, resolve, call_model,
}
use tech_screen_ai.Llm.Reply.{Loaded, Client, failure, failure_outcome, at_least_one, min}
use tech_screen_ai.Llm.Models.{ModelConfig}
use tech_screen_ai.Llm.Pricing.{PricingTable, cost_for}
use tech_screen_ai.Llm.Trace.{TraceOutcome, TraceRecord}
use tech_screen_ai.Llm.Audit.Endings.{Fresh, Fails, fail-Audited}
use tech_screen_ai.Llm.Audit.Results.{receive-Audited}

module _ {V : Type 0} (client : Client V) (request : ModelCallRequest) where
  gave_up-Fails :
      (e : WrapperError) (n generated : ℕ)
      → generated ≡ n
      → 1 ≤ n
      → n ≤ 3
      → Fails (failure (failure_outcome e) (at_least_one n)) e generated
  unfolding failure_outcome
  gave_up-Fails e n generated same first last = record {
    reports = ground (arith, same, first);
    first = ground arith;
    last = ground arith;
    calls = ground (arith, same, last);
    free = λ r. ground arith;
  }

  after_attempts-Audited :
      (started : ℕ) (table : PricingTable) (model : String) (attempted : Attempted) (v : V)
      (log : Log)
      → is_some (cost_for table model (pos 0) (pos 0)) ≡ true
      → Fresh log
      → Counts 1 2 log.generated attempted
      → Audited request
          (after_attempts (audited client) request started table model (attempted, (v, log)))
  unfolding after_attempts
  after_attempts-Audited started table model (Attempted.got raw n) v log known fresh
        (e, first, last) =
      receive-Audited client request started table model raw n request.json_schema v log known fresh
        e first last
  after_attempts-Audited started table model (Attempted.gave_up e n) v log known fresh
        (same, first, last) =
      fail-Audited client request started model (failure (failure_outcome e) (at_least_one n)) e v
        log fresh (gave_up-Fails e n log.generated same first last)
  after_attempts-Audited started table model Attempted.ran_out v log known fresh (first, last) =
      fail-Audited client request started model (failure TraceOutcome.timeout 1)
        WrapperError.timeout v log fresh
        (record {
          reports = refl;
          first = omega arith;
          last = omega arith;
          calls = last;
          free = λ r. refl;
        })
  after_attempts-Audited started table model Attempted.broke v log known fresh (first, last) =
      fail-Audited client request started model (failure TraceOutcome.upstream_unavailable 1)
        WrapperError.upstream_unavailable v log fresh
        (record {
          reports = refl;
          first = omega arith;
          last = omega arith;
          calls = last;
          free = λ r. refl;
        })

  attempted-Audited :
      (started : ℕ) (table : PricingTable) (model : String) (r : Attempted × (V × Log))
      → is_some (cost_for table model (pos 0) (pos 0)) ≡ true
      → Looped 1 2 empty_log r
      → Audited request (after_attempts (audited client) request started table model r)
  attempted-Audited started table model (attempted, (v, log)) known (records, charges, counts) =
      after_attempts-Audited started table model attempted v log known
        (record { records = records; charges = charges }) counts

  empty-Fresh : Fresh empty_log
  empty-Fresh = record { records = refl; charges = refl }

  -- A refusal, before any call of the backend.
  refused-Audited :
      (started : ℕ) (model : String) (outcome : TraceOutcome) (e : WrapperError) (v : V)
      → Reports e outcome 0
      → CallsFit outcome 0
      → ((r : TraceRecord) → charges_for r outcome ≡ [])
      → Audited request
          (fail (audited client) request started model (failure outcome 1) e (v, empty_log))
  refused-Audited started model outcome e v reports calls free =
      fail-Audited client request started model (failure outcome 1) e v empty_log empty-Fresh
        (record {
          reports = reports;
          first = omega arith;
          last = omega arith;
          calls = calls;
          free = free;
        })

  no_config-Audited :
      (started : ℕ) (model : String) (v : V)
      → Audited request (
          fail
            (audited client)
            request
            started
            model
            (failure TraceOutcome.config_error 1)
            WrapperError.config_error
            (v, empty_log))
  no_config-Audited started model v =
      refused-Audited started model TraceOutcome.config_error WrapperError.config_error v refl
        (omega arith) (λ r. refl)

  selected-Audited :
      (started : ℕ) (table : PricingTable) (model : String) (config : ModelConfig) (ended : Bool)
      (v : V)
      → is_some (cost_for table model (pos 0) (pos 0)) ≡ true
      → Audited request
          (selected (audited client) request started table model config (ended, (v, empty_log)))
  unfolding selected attempt
  selected-Audited started table model config true v known = refl
  selected-Audited started table model config false v known =
      attempted-Audited started table model _ known (
        call_with_retries-Looped
          (client.generate request model config.temperature
            (min request.max_output_tokens config.max_output_tokens))
          client.sleep v empty_log refl)

  within_budget-Audited :
      (spent : Bool) (started : ℕ) (table : PricingTable) (model : String) (config : ModelConfig)
      (v : V)
      → is_some (cost_for table model (pos 0) (pos 0)) ≡ true
      → Audited request
          (within_budget (audited client) request spent started table model config (v, empty_log))
  unfolding within_budget
  within_budget-Audited true started table model config v known =
      refused-Audited started model TraceOutcome.budget_exceeded WrapperError.budget_exceeded v
        (inl (refl, refl)) refl (λ r. refl)
  within_budget-Audited false started table model config v known =
      selected-Audited started table model config (client.select request.agent v).0
        (client.select request.agent v).1 known

  check_budget-Audited :
      (started : ℕ) (table : PricingTable) (model : String) (config : ModelConfig)
      (total : Option ℕ) (v : V)
      → is_some (cost_for table model (pos 0) (pos 0)) ≡ true
      → Audited request
          (check_budget (audited client) request started table model config (total, (v, empty_log)))
  unfolding check_budget
  check_budget-Audited started table model config none v known = refl
  check_budget-Audited started table model config (some total) v known =
      within_budget-Audited (leb client.budget total) started table model config v known

  probed-Audited :
      (started : ℕ) (table : PricingTable) (model : String) (config : ModelConfig) (cost : Option ℕ)
      (v : V)
      → cost_for table model (pos 0) (pos 0) ≡ cost
      → Audited request
          (probed (audited client) request started table model config cost (v, empty_log))
  unfolding probed
  probed-Audited started table model config none v e = no_config-Audited started model v
  probed-Audited started table model config (some cost) v e =
      check_budget-Audited started table model config (client.session_total request.session_id v).0
        (client.session_total request.session_id v).1 (ap is_some e)

  check_price-Audited :
      (started : ℕ) (table : Loaded PricingTable) (model : String) (config : ModelConfig) (v : V)
      → Audited request
          (check_price (audited client) request started table model config (v, empty_log))
  unfolding check_price
  check_price-Audited started Loaded.unread model config v = refl
  check_price-Audited started Loaded.refused model config v = no_config-Audited started model v
  check_price-Audited started (Loaded.loaded table) model config v =
      probed-Audited started table model config _ v refl

  resolve-Audited :
      (started : ℕ) (config : Loaded ModelConfig) (v : V)
      → Audited request (resolve (audited client) request started config (v, empty_log))
  unfolding resolve
  resolve-Audited started Loaded.unread v = refl
  resolve-Audited started Loaded.refused v = no_config-Audited started _ v
  resolve-Audited started (Loaded.loaded config) v =
      check_price-Audited started client.pricing _ config v

  -- A call of the model that returns or raises a WrapperError, seen through a client that logs
  -- what it does, hands exactly one record to the trace sink, for its session and agent, with 1 to
  -- 3 attempts: on a return the record says ok, has the result's id, cost, payload and model, its
  -- attempts are the calls of the backend, and the ledger is charged that cost once. On an error
  -- other than the sink's the record's outcome is the one of the error, but a
  -- SessionBudgetExceeded or VertexSchemaError that comes after a call of the backend may be
  -- traced as upstream_unavailable; unless it is the sink that failed after a success, the ledger
  -- is not charged. The backend is called at most three times, and not at all where the outcome is
  -- budget_exceeded. A call that ends in any other exception hands no record to the sink.
  pub call_model-Audited :
      (v : V) → Audited request (call_model (audited client) request (v, empty_log))
  unfolding call_model agent_config
  call_model-Audited v =
      resolve-Audited (client.perf_counter v).0 (agent_config client request client.models)
        (client.perf_counter v).1
