-- ===== src/Agents/Call.antt =====
-- What app/backend/agents uses of app/backend/llm: the request, and how a call of the model ends.
use Prim.Native.String.{[], ◌∷◌}
use tech_screen_ai.Prelude.{ℕ, suc, String, Bool, true, false, ◌&&◌, Option, leb}
use tech_screen_ai.Json.{Fields}

pub record ModelCallRequest : Type 0 where
  pub agent : String
  pub system_prompt : String
  pub user_payload : String
  pub json_schema : Option Fields
  pub session_id : String
  pub timeout_s : ℕ
  pub max_output_tokens : ℕ
  pub model_override : Option String

-- `len` of a `str`
unfoldable pub text_length : String → ℕ
text_length [] = 0
text_length (c ∷ cs) = suc (text_length cs)

abbrev within : ℕ → ℕ → ℕ → Bool
within low high n = leb low n && leb n high

-- The bounds that the fields declare: outside them the construction raises `ValidationError`.
unfoldable pub is_request : ModelCallRequest → Bool
unfolding text_length
is_request request =
    leb 1 (text_length request.agent)
    && within 1 64000 (text_length request.system_prompt)
    && within 1 200000 (text_length request.user_payload)
    && within 1 30 request.timeout_s
    && within 1 4096 request.max_output_tokens

-- The subclasses of `WrapperError`, less their messages.
pub data WrapperError : Type 0 where
  config_error timeout upstream_unavailable budget_exceeded trace_write_error : WrapperError
  schema_error : (raw_payload : String) → WrapperError

-- A result, of which the agents read `parsed`, or an error; `crashed` is any other exception, which
-- passes through the agents.
pub data CallOutcome : Type 0 where
  returned : (parsed : Option Fields) → CallOutcome
  raised : WrapperError → CallOutcome
  crashed : CallOutcome

-- The errors that share the policy of one retry.
pub data Miss : Type 0 where
  schema_miss validation_miss echo_mismatch : Miss

-- One call with its validation: an output, a contract miss, or an exception that is passed on.
pub data Attempt (A : Type 0) : Type 0 where
  accepted : A → Attempt A
  missed : Miss → Attempt A
  failed : WrapperError → Attempt A
  crashed : Attempt A

-- How a turn of an agent ends: `output_invalid` is `AssessorOutputInvalid` with its two misses, or
-- `InterviewerOutputInvalid`, and `request_invalid` the `ValidationError` of the request, which is
-- built before the `try`.
pub data TurnResult (A : Type 0) : Type 0 where
  output : A → TurnResult A
  output_invalid : (first_miss second_miss : Miss) → TurnResult A
  wrapper_error : WrapperError → TurnResult A
  request_invalid crashed : TurnResult A

-- `VertexSchemaError` is a miss; `except` lets every other error pass.
unfoldable pub error_attempt : {A : Type 0} → WrapperError → Attempt A
error_attempt (WrapperError.schema_error raw) = Attempt.missed Miss.schema_miss
error_attempt e = Attempt.failed e

-- The inner `try`, after a first miss.
unfoldable pub after_retry : {A : Type 0} → Miss → Attempt A → TurnResult A
after_retry first_miss (Attempt.accepted a) = TurnResult.output a
after_retry first_miss (Attempt.missed second_miss) =
    TurnResult.output_invalid first_miss second_miss
after_retry first_miss (Attempt.failed e) = TurnResult.wrapper_error e
after_retry first_miss Attempt.crashed = TurnResult.crashed

-- `W` is what a call may change: the trace sink, the ledger, the backend.
module _ {W A : Type 0} where
  -- The outer `except`: one fresh attempt after a miss.
  unfoldable pub second_try : (W → Attempt A × W) → Attempt A × W → TurnResult A × W
  unfolding after_retry
  second_try attempt (Attempt.accepted a, w) = (TurnResult.output a, w)
  second_try attempt (Attempt.failed e, w) = (TurnResult.wrapper_error e, w)
  second_try attempt (Attempt.crashed, w) = (TurnResult.crashed, w)
  second_try attempt (Attempt.missed miss, w) =
      let (again, later) = attempt w in (after_retry miss again, later)

  unfoldable pub with_retry : (W → Attempt A × W) → W → TurnResult A × W
  unfolding second_try
  with_retry attempt w = second_try attempt (attempt w)

  -- The request is built first; only a valid one reaches the model.
  unfoldable pub with_request : Bool → (W → Attempt A × W) → W → TurnResult A × W
  unfolding with_retry
  with_request false attempt w = (TurnResult.request_invalid, w)
  with_request true attempt w = with_retry attempt w
