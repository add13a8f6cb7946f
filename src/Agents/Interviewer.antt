-- ===== src/Agents/Interviewer.antt =====
-- app/backend/agents/interviewer.py: one turn of the Interviewer.
-- The prompt files, the serialisation of the inputs and pydantic's validation are parameters.
use tech_screen_ai.Prelude.{String, Option, none, some, List}
use tech_screen_ai.Json.{Fields}
use tech_screen_ai.Agents.Call.{
  ModelCallRequest, CallOutcome, Miss, Attempt, TurnResult, error_attempt, is_request, with_request,
}
use tech_screen_ai.Agents.Output.{InterviewerMove, InterviewerOutput}

pub data Role : Type 0 where
  interviewer candidate : Role

pub record RecentTurn : Type 0 where
  pub role : Role
  pub text : String

pub record InterviewerTurnInputs : Type 0 where
  pub session_id : String
  pub interview_plan_snapshot : Fields
  pub current_competency : Fields
  pub recent_turns : List RecentTurn
  pub next_planned_move : InterviewerMove
  pub move_context : Fields
  pub candidate_first_name : Option String

-- What the module reads from its environment.
pub record InterviewerLibrary : Type 0 where
  -- `_load_system_prompt()` and `_load_output_schema()`
  pub system_prompt : String
  pub output_schema : Fields
  -- pydantic's dump without `session_id`, as JSON text
  pub serialize : InterviewerTurnInputs → String
  -- `InterviewerOutput.model_validate`; `none` is a `ValidationError`
  pub model_validate : Option Fields → Option InterviewerOutput

unfoldable pub interviewer_request : InterviewerLibrary → InterviewerTurnInputs → ModelCallRequest
interviewer_request lib inputs = record {
  agent = "interviewer";
  system_prompt = lib.system_prompt;
  user_payload = lib.serialize inputs;
  json_schema = some lib.output_schema;
  session_id = inputs.session_id;
  timeout_s = 30;
  max_output_tokens = 4096;
  model_override = none;
}

unfoldable pub validate_result : InterviewerLibrary → CallOutcome → Attempt InterviewerOutput
unfolding error_attempt
validate_result lib (CallOutcome.raised e) = error_attempt e
validate_result lib CallOutcome.crashed = Attempt.crashed
validate_result lib (CallOutcome.returned parsed) = elim (lib.model_validate parsed) [
  | none ↦ Attempt.missed Miss.validation_miss
  | some output ↦ Attempt.accepted output
]

module _ {W : Type 0} (lib : InterviewerLibrary)
    (call_model : ModelCallRequest → W → CallOutcome × W) where
  unfoldable pub speak_once : InterviewerTurnInputs → W → Attempt InterviewerOutput × W
  unfolding interviewer_request validate_result
  speak_once inputs w =
      let (outcome, later) = call_model (interviewer_request lib inputs) w in
      (validate_result lib outcome, later)

  unfoldable pub run_interviewer_turn : InterviewerTurnInputs → W → TurnResult InterviewerOutput × W
  unfolding speak_once with_request
  run_interviewer_turn inputs w =
      with_request (is_request (interviewer_request lib inputs)) (speak_once inputs) w
