-- ===== src/Llm/Audit.antt =====
-- A client that keeps a log of what a call does: the records handed to the sink, the charges on the
-- ledger, and the calls of the backend.
pub mod Retries
pub mod Endings
pub mod Results
pub mod Calls
pub mod Ceiling
use tech_screen_ai.Prelude.{
  ℕ, zero, suc, ◌+◌, ◌≤◌, ◌<◌, ◌≡◌, ◌⊎◌, String, Bool, Option, none, some, List, [], ◌∷◌,
}
use tech_screen_ai.Agents.Call.{ModelCallRequest, WrapperError}
use tech_screen_ai.Llm.Reply.{Client, ModelCallResult, ModelReply}
use tech_screen_ai.Llm.Trace.{TraceOutcome, TraceRecord}

pub record Log : Type 0 where
  pub records : List TraceRecord
  pub charges : List ℕ
  pub generated : ℕ

abbrev pub empty_log : Log
empty_log = record { records = []; charges = []; generated = 0 }

abbrev pub with_record : TraceRecord → Log → Log
with_record r log = record log { records = r ∷ log.records }

abbrev pub with_charge : ℕ → Log → Log
with_charge cost log = record log { charges = cost ∷ log.charges }

abbrev pub with_call : Log → Log
with_call log = record log { generated = suc log.generated }

-- An operation of the client, with its effect on the log.
abbrev pub logging : {V A : Type 0} → (Log → Log) → (V → A × V) → V × Log → A × (V × Log)
logging note operation (v, log) = let (a, u) = operation v in (a, (u, note log))

abbrev pub unlogged : {V A : Type 0} → (V → A × V) → V × Log → A × (V × Log)
unlogged operation (v, log) = let (a, u) = operation v in (a, (u, log))

abbrev pub audited : {V : Type 0} → Client V → Client (V × Log)
audited client = record {
  models = client.models;
  pricing = client.pricing;
  budget = client.budget;
  prompt_sha = client.prompt_sha;
  loads = client.loads;
  session_total = λ id. unlogged (client.session_total id);
  add = λ id cost. logging (with_charge cost) (client.add id cost);
  write = λ r. logging (with_record r) (client.write r);
  select = λ agent. unlogged (client.select agent);
  generate = λ request model temperature cap n.
      logging with_call (client.generate request model temperature cap n);
  sleep = λ n. unlogged (client.sleep n);
  perf_counter = unlogged client.perf_counter;
  stamp = unlogged client.stamp;
}

-- The outcome that the trace gives for an error, after a number of calls of the backend. The wrapper's
-- own refusal for the budget comes before any call; the same error or a schema error that the
-- backend raises itself is traced as `upstream_unavailable`.
abbrev pub Reports : WrapperError → TraceOutcome → ℕ → Type 0
Reports WrapperError.timeout o generated = o ≡ TraceOutcome.timeout
Reports WrapperError.config_error o generated = o ≡ TraceOutcome.config_error
Reports WrapperError.upstream_unavailable o generated = o ≡ TraceOutcome.upstream_unavailable
Reports WrapperError.budget_exceeded o generated =
    ((o ≡ TraceOutcome.budget_exceeded) × (generated ≡ 0))
    ⊎ ((o ≡ TraceOutcome.upstream_unavailable) × (1 ≤ generated))
Reports (WrapperError.schema_error raw) o generated =
    ((o ≡ TraceOutcome.schema_error) ⊎ (o ≡ TraceOutcome.upstream_unavailable)) × (1 ≤ generated)
Reports WrapperError.trace_write_error o generated = Unit

-- A refusal for the budget calls no backend; nothing calls it more than three times.
abbrev pub CallsFit : TraceOutcome → ℕ → Type 0
CallsFit TraceOutcome.budget_exceeded generated = generated ≡ 0
CallsFit _ generated = generated ≤ 3

-- The ledger is charged for a success alone.
abbrev pub charges_for : TraceRecord → TraceOutcome → List ℕ
charges_for r TraceOutcome.ok = r.cost_usd ∷ []
charges_for r _ = []

-- The one record of a call, and what the log then holds.
pub record Traced (request : ModelCallRequest) (r : TraceRecord) (log : Log) : Type 0 where
  pub once : log.records ≡ r ∷ []
  pub session : r.session_id ≡ request.session_id
  pub agent : r.agent ≡ request.agent
  pub first : 1 ≤ r.attempts
  pub last : r.attempts ≤ 3
  pub calls : CallsFit r.outcome log.generated
  pub charges : log.charges ≡ charges_for r r.outcome

-- The result says what its record says.
pub record Matches (result : ModelCallResult) (r : TraceRecord) (log : Log) : Type 0 where
  pub outcome : r.outcome ≡ TraceOutcome.ok
  pub trace_id : result.trace_id ≡ r.id
  pub cost : result.cost_usd ≡ r.cost_usd
  pub parsed : result.parsed ≡ r.parsed
  pub model : result.model ≡ r.model
  pub attempts : result.attempts ≡ r.attempts
  pub generated : log.generated ≡ r.attempts

-- A call that returns or raises a `WrapperError` is traced exactly once; any other exception leaves
-- it untraced.
abbrev pub Audited : {V : Type 0} → ModelCallRequest → ModelReply × (V × Log) → Type 0
Audited request (ModelReply.returned result, (v, log)) =
    (r : TraceRecord) × Traced request r log × Matches result r log
Audited request (ModelReply.raised e, (v, log)) =
    (r : TraceRecord) × Traced request r log × Reports e r.outcome log.generated
Audited request (ModelReply.crashed, (v, log)) = log.records ≡ []
