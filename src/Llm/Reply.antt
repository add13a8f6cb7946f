-- ===== src/Llm/Reply.antt =====
-- What a call of the model works with and how it ends, in app/backend/llm/vertex.py.
use tech_screen_ai.Prelude.{
  ℕ, zero, String, Bool, Option, none, some, leb, if◌then◌else◌, ◌==◌, string_eq,
}
use tech_screen_ai.Json.{Fields}
use tech_screen_ai.Agents.Call.{ModelCallRequest, WrapperError, CallOutcome}
use tech_screen_ai.Llm.Backend.{RawBackendResult, BackendReply}
use tech_screen_ai.Llm.Models.{ModelsConfig}
use tech_screen_ai.Llm.Pricing.{PricingTable}
use tech_screen_ai.Llm.Schema.{Read}
use tech_screen_ai.Llm.Trace.{TraceOutcome, TraceRecord}
use tech_screen_ai.Orchestrator.Command.{Uuid}
use tech_screen_ai.Orchestrator.State.{Time}

pub record ModelCallResult : Type 0 where
  pub text : String
  pub parsed : Option Fields
  pub input_tokens : ℕ
  pub output_tokens : ℕ
  pub cost_usd : ℕ
  pub latency_ms : ℕ
  pub model : String
  pub model_version : String
  pub attempts : ℕ
  pub trace_id : Uuid

-- `crashed` is an exception that is no `WrapperError`: of a YAML file that cannot be read, of the
-- ledger, of the choice of the backend, of a payload that `json.loads` cannot read, or of a schema
-- that is malformed.
pub data ModelReply : Type 0 where
  returned : ModelCallResult → ModelReply
  raised : WrapperError → ModelReply
  crashed : ModelReply

-- The part of a reply that the agents read.
abbrev pub outcome_of : ModelReply → CallOutcome
outcome_of (ModelReply.returned result) = CallOutcome.returned result.parsed
outcome_of (ModelReply.raised e) = CallOutcome.raised e
outcome_of ModelReply.crashed = CallOutcome.crashed

-- A YAML file, with its `ModelCallConfigError`, or any other exception of reading it.
pub data Loaded (A : Type 0) : Type 0 where
  loaded : A → Loaded A
  refused unread : Loaded A

-- What a call works with. A Boolean answer is `true` where the operation raised.
pub record Client (V : Type 0) : Type 0 where
  -- configs/models.yaml and pricing.yaml
  pub models : Loaded ModelsConfig
  pub pricing : Loaded PricingTable
  -- `settings.llm_budget_per_session_usd`
  pub budget : ℕ
  -- `canonical_prompt_sha`
  pub prompt_sha : ModelCallRequest → String → String
  -- `json.loads`
  pub loads : String → Read
  pub session_total : Uuid → V → Option ℕ × V
  pub add : Uuid → ℕ → V → Bool × V
  pub write : TraceRecord → V → Bool × V
  -- `_select_backend`
  pub select : String → V → Bool × V
  -- the model, the temperature, the cap on the output, the number of the attempt
  pub generate : ModelCallRequest → String → ℕ → ℕ → ℕ → V → BackendReply × V
  pub sleep : ℕ → V → Bool × V
  -- `time.perf_counter`, in nanoseconds
  pub perf_counter : V → ℕ × V
  -- `uuid4()` and `datetime.now(UTC)`
  pub stamp : V → (Uuid × Time) × V

-- `request.model_override or default`: an empty text is no override.
unfoldable pub override_or : Option String → String → String
override_or none default = default
override_or (some model) default = if model == "" then default else model

abbrev pub min : ℕ → ℕ → ℕ
min a b = if leb a b then a else b

abbrev pub at_least_one : ℕ → ℕ
at_least_one zero = 1
at_least_one n = n

-- The outcome that the trace gives for an error of the retry loop.
unfoldable pub failure_outcome : WrapperError → TraceOutcome
failure_outcome WrapperError.timeout = TraceOutcome.timeout
failure_outcome WrapperError.config_error = TraceOutcome.config_error
failure_outcome _ = TraceOutcome.upstream_unavailable

abbrev pub version_of : Option RawBackendResult → Option String
version_of none = none
version_of (some raw) = some raw.model_version

abbrev pub text_of : Option RawBackendResult → Option String
text_of none = none
text_of (some raw) = some raw.text

abbrev pub input_of : Option RawBackendResult → ℕ
input_of none = 0
input_of (some raw) = raw.input_tokens

abbrev pub output_of : Option RawBackendResult → ℕ
output_of none = 0
output_of (some raw) = raw.output_tokens

-- The part of a trace record that the ending of a call decides.
pub record Ending : Type 0 where
  pub outcome : TraceOutcome
  pub attempts : ℕ
  pub raw : Option RawBackendResult
  pub cost_usd : ℕ
  pub parsed : Option Fields

-- An ending with no result of the backend.
abbrev pub failure : TraceOutcome → ℕ → Ending
failure outcome attempts = record {
  outcome = outcome;
  attempts = attempts;
  raw = none;
  cost_usd = 0;
  parsed = none;
}

-- A payload that misses the schema was billed.
abbrev pub rejection : RawBackendResult → ℕ → ℕ → Ending
rejection raw attempts cost = record {
  outcome = TraceOutcome.schema_error;
  attempts = attempts;
  raw = some raw;
  cost_usd = cost;
  parsed = none;
}

abbrev pub success : RawBackendResult → ℕ → ℕ → Option Fields → Ending
success raw attempts cost parsed = record {
  outcome = TraceOutcome.ok;
  attempts = attempts;
  raw = some raw;
  cost_usd = cost;
  parsed = parsed;
}
