-- ===== src/Llm/Examples.antt =====
-- The theorems on a client with one model, a clock that counts, and a backend that fails twice.
use tech_screen_ai.Prelude.{true, ℕ, suc, ◌+◌, ◌≡◌, refl, false, none, some, [], ◌∷◌, string_eq}
use tech_screen_ai.Json.{Json, Fields, get}
use tech_screen_ai.Agents.Call.{ModelCallRequest}
use tech_screen_ai.Llm.Audit.{empty_log, audited, Audited}
use tech_screen_ai.Llm.Audit.Calls.{call_model-Audited}
use tech_screen_ai.Llm.Audit.Ceiling.{Untouched, call_model-AtCeiling}
use tech_screen_ai.Llm.Backend.{RawBackendResult, BackendReply}
use tech_screen_ai.Llm.Client.{call_model}
use tech_screen_ai.Llm.Reply.{Loaded, Client}
use tech_screen_ai.Llm.Models.{ModelConfig}
use tech_screen_ai.Llm.Pricing.{PricingTable}
use tech_screen_ai.Llm.Schema.{Read, validate_against_schema}
use tech_screen_ai.Llm.Keys.{passed_if, has_key}
use tech_screen_ai.Llm.Schema.Contract.{
  Contract, Properties, all_present, schema_of, conforms, validate-Decides,
}
use tech_screen_ai.Orchestrator.Adjudication.{seconds}

abbrev config : ModelConfig
config = record {
  model = "gemini-2.5-flash";
  prompt_version = "v0001";
  temperature = 0;
  max_output_tokens = 1024;
}

-- In the unit of a millionth of a dollar.
abbrev prices : PricingTable
prices = ("gemini-2.5-flash", record { input_per_1k_tokens = 75; output_per_1k_tokens = 300 }) ∷ []

abbrev answer : RawBackendResult
answer = record {
  text = "{}";
  input_tokens = 1200;
  output_tokens = 100;
  model = "gemini-2.5-flash";
  model_version = "gemini-2.5-flash-001";
}

abbrev reply_at : ℕ → BackendReply
reply_at (suc (suc (suc n))) = BackendReply.result answer
reply_at n = BackendReply.transient

abbrev client : Client ℕ
client = record {
  models = Loaded.loaded (record { interviewer = config; assessor = config; planner = config });
  pricing = Loaded.loaded prices;
  budget = 5000000000;
  prompt_sha = λ request model. "…";
  loads = λ text. Read.value (Json.obj Fields.end);
  session_total = λ id v. (some 0, v);
  add = λ id cost v. (false, v);
  write = λ r v. (false, v);
  select = λ agent v. (false, v);
  generate = λ request model temperature cap n v. (reply_at n, v + 1);
  sleep = λ n v. (false, v);
  perf_counter = λ v. (v, v);
  stamp = λ v. (("trace", seconds v), v);
}

abbrev request : ModelCallRequest
request = record {
  agent = "assessor";
  system_prompt = "…";
  user_payload = "…";
  json_schema = some Fields.end;
  session_id = "session";
  timeout_s = 30;
  max_output_tokens = 4096;
  model_override = none;
}

call_model-Audited_example : Audited request (call_model (audited client) request (0, empty_log))
call_model-Audited_example = call_model-Audited client request 0

abbrev spent : Client ℕ
spent = record client { session_total = λ id v. (some 5000000000, v) }

call_model-AtCeiling_example : Untouched (call_model (audited spent) request (0, empty_log))
call_model-AtCeiling_example = call_model-AtCeiling spent request 5000000000 0 refl refl

-- An object with one required text, and a list of integers.
abbrev contract : Contract
contract = Contract.object ("utterance" ∷ []) true (
    Properties.property "utterance" Contract.text
      (Properties.property "levels" (Contract.array Contract.integer) Properties.done))

abbrev payload : Json
payload = Json.obj (Fields.field "utterance" (Json.str "…") Fields.end)

validate-Decides_example :
    validate_against_schema payload (schema_of contract) ≡ passed_if (conforms contract payload)
validate-Decides_example = validate-Decides contract payload

conforms_test : conforms contract payload ≡ true
unfolding conforms get has_key all_present
conforms_test = refl
