-- ===== src/Agents/Examples.antt =====
-- The agents' theorems on a model that first answers for another turn.
use tech_screen_ai.Prelude.{
  ℕ, zero, suc, ◌+◌, ◌≡◌, refl, false, String, Option, none, some, [], arith, string_eq,
  string_eq_iff,
}
use tech_screen_ai.Json.{Json, Items, Fields, get}
use tech_screen_ai.Agents.Call.{
  ModelCallRequest, CallOutcome, TurnResult, is_request, text_length, with_request, with_retry,
  second_try, after_retry,
}
use tech_screen_ai.Agents.Assessor.{
  AssessorTurnInput, AssessorLibrary, assessor_request, metadata, checked, validated, score_once,
  run_assessor_turn,
}
use tech_screen_ai.Agents.Integrity.{TurnEchoes, run_assessor_turn-Echoes, metadata-ids}
use tech_screen_ai.Agents.Output.{AssessorOutput}
use tech_screen_ai.Agents.Retry.{CallsAs, counted, assessor-RetriesOnce}

abbrev inputs : AssessorTurnInput
inputs = record {
  session_id = "session";
  turn_id = "t1";
  competency_focus = "python.async";
  rubric_snapshot_subset = Items.nil;
  turn = Fields.end;
  prior_turns = Items.nil;
  turn_metadata = Fields.field "turn_id" (Json.str "forged") Fields.end;
}

abbrev output_for : String → AssessorOutput
output_for turn = record {
  turn_id = turn;
  session_id = "session";
  competency_focus = "python.async";
  assessments = [];
  red_flags = [];
  needs_manual_review = false;
  manual_review_reason_en = none;
}

-- pydantic on a document with one field, the turn id.
abbrev read_output : Option Fields → Option AssessorOutput
read_output (some (Fields.field name (Json.str turn) rest)) = some (output_for turn)
read_output _ = none

abbrev library : AssessorLibrary
library = record {
  system_prompt = "…";
  output_schema = Fields.end;
  dumps = λ payload. "…";
  model_validate = read_output;
}

-- The first call answers for another turn, later ones for this one.
abbrev model : ModelCallRequest → ℕ → CallOutcome × ℕ
model request zero =
    (CallOutcome.returned (some (Fields.field "turn_id" (Json.str "t0") Fields.end)), 1)
model request (suc n) =
    (CallOutcome.returned (some (Fields.field "turn_id" (Json.str "t1") Fields.end)), n + 2)

-- The echo of another turn is a miss, and the second attempt is returned.
retry_test : run_assessor_turn library model inputs 0 ≡ (TurnResult.output (output_for "t1"), 2)
unfolding run_assessor_turn assessor_request is_request text_length with_request with_retry
    second_try score_once validated checked after_retry
retry_test = refl

run_assessor_turn-Echoes_example : TurnEchoes inputs (run_assessor_turn library model inputs 0).0
run_assessor_turn-Echoes_example = run_assessor_turn-Echoes library model inputs 0

assessor-RetriesOnce_example :
    CallsAs
      (is_request (assessor_request library inputs))
      (score_once library model inputs 0).0
      (score_once library model inputs (score_once library model inputs 0).1).0
      (run_assessor_turn library (counted model) inputs (0, 0))
assessor-RetriesOnce_example = assessor-RetriesOnce model library inputs 0

metadata-ids_example :
    (get "turn_id" (metadata inputs) ≡ some (Json.str "t1"))
    × (get "session_id" (metadata inputs) ≡ some (Json.str "session"))
    × (get "started_at" (metadata inputs)
        ≡ get "started_at" (Fields.field "turn_id" (Json.str "forged") Fields.end))
metadata-ids_example =
    metadata-ids inputs "started_at" (λ e. ground (arith, string_eq_iff "started_at" "turn_id"))
      (λ e. ground (arith, string_eq_iff "started_at" "session_id"))
