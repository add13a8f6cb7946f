-- ===== src/Agents/Assessor.antt =====
-- app/backend/agents/assessor.py: one turn of the Assessor, and its payload.
-- The prompt files, `json.dumps` and pydantic's validation are parameters.
use tech_screen_ai.Prelude.{ℕ, String, not, Option, none, some, ◌==◌, string_eq, if◌then◌else◌}
use tech_screen_ai.Json.{Json, Items, Fields, set}
use tech_screen_ai.Agents.Call.{
  ModelCallRequest, CallOutcome, Miss, Attempt, TurnResult, error_attempt, is_request, with_request,
}
use tech_screen_ai.Agents.Output.{AssessorOutput}

pub record AssessorTurnInput : Type 0 where
  pub session_id : String
  pub turn_id : String
  pub competency_focus : String
  pub rubric_snapshot_subset : Items
  pub turn : Fields
  pub prior_turns : Items
  pub turn_metadata : Fields

-- What the module reads from its environment.
pub record AssessorLibrary : Type 0 where
  -- `load_system_prompt()` and `load_output_schema()`
  pub system_prompt : String
  pub output_schema : Fields
  -- `json.dumps` of a dict
  pub dumps : Fields → String
  -- `AssessorOutput.model_validate`; `none` is a `ValidationError`
  pub model_validate : Option Fields → Option AssessorOutput

-- {**self.turn_metadata, "turn_id": …, "session_id": …}
unfoldable pub metadata : AssessorTurnInput → Fields
metadata inputs =
    set "session_id" (Json.str inputs.session_id)
      (set "turn_id" (Json.str inputs.turn_id) inputs.turn_metadata)

unfoldable pub user_payload : AssessorTurnInput → Fields
unfolding metadata
user_payload inputs =
    Fields.field "rubric_snapshot_subset" (Json.arr inputs.rubric_snapshot_subset) (
      Fields.field "turn" (Json.obj inputs.turn) (
        Fields.field "prior_turns" (Json.arr inputs.prior_turns) (
          Fields.field "competency_focus" (Json.str inputs.competency_focus)
            (Fields.field "turn_metadata" (Json.obj (metadata inputs)) Fields.end))))

abbrev default_timeout : ℕ
default_timeout = 30

abbrev default_tokens : ℕ
default_tokens = 4096

unfoldable pub assessor_request : AssessorLibrary → AssessorTurnInput → ModelCallRequest
unfolding user_payload
assessor_request lib inputs = record {
  agent = "assessor";
  system_prompt = lib.system_prompt;
  user_payload = lib.dumps (user_payload inputs);
  json_schema = some lib.output_schema;
  session_id = inputs.session_id;
  timeout_s = default_timeout;
  max_output_tokens = default_tokens;
  model_override = none;
}

-- The three comparisons with the request, in their order.
unfoldable pub checked : AssessorTurnInput → AssessorOutput → Attempt AssessorOutput
checked inputs output =
    if not (output.turn_id == inputs.turn_id)
    then Attempt.missed Miss.echo_mismatch
    else if not (output.session_id == inputs.session_id)
    then Attempt.missed Miss.echo_mismatch
    else if not (output.competency_focus == inputs.competency_focus)
    then Attempt.missed Miss.echo_mismatch
    else Attempt.accepted output

unfoldable pub validated :
    AssessorLibrary → AssessorTurnInput → CallOutcome → Attempt AssessorOutput
unfolding checked error_attempt
validated lib inputs (CallOutcome.raised e) = error_attempt e
validated lib inputs CallOutcome.crashed = Attempt.crashed
validated lib inputs (CallOutcome.returned parsed) = elim (lib.model_validate parsed) [
  | none ↦ Attempt.missed Miss.validation_miss
  | some output ↦ checked inputs output
]

module _ {W : Type 0} (lib : AssessorLibrary)
    (call_model : ModelCallRequest → W → CallOutcome × W) where
  unfoldable pub score_once : AssessorTurnInput → W → Attempt AssessorOutput × W
  unfolding assessor_request validated
  score_once inputs w =
      let (outcome, later) = call_model (assessor_request lib inputs) w in
      (validated lib inputs outcome, later)

  unfoldable pub run_assessor_turn : AssessorTurnInput → W → TurnResult AssessorOutput × W
  unfolding score_once with_request
  run_assessor_turn inputs w =
      with_request (is_request (assessor_request lib inputs)) (score_once inputs) w
