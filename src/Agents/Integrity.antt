-- ===== src/Agents/Integrity.antt =====
-- The Assessor's outputs belong to the turn that was asked about.
use tech_screen_ai.Prelude.{
  ◌≡◌, ◌≢◌, String, Bool, true, false, some, string_eq, string_eq_iff, arith,
}
use tech_screen_ai.Json.{Json, get, set, get-set}
use tech_screen_ai.Agents.Call.{
  ModelCallRequest, CallOutcome, Attempt, TurnResult, with_retry, second_try, after_retry,
  error_attempt, is_request, with_request,
}
use tech_screen_ai.Agents.Assessor.{
  AssessorTurnInput, AssessorLibrary, assessor_request, metadata, checked, validated, score_once,
  run_assessor_turn,
}
use tech_screen_ai.Agents.Output.{AssessorOutput}

-- The output names the turn, the session and the competency of the inputs.
abbrev pub Echoes : AssessorTurnInput → AssessorOutput → Type 0
Echoes inputs output =
    (output.turn_id ≡ inputs.turn_id)
    × (output.session_id ≡ inputs.session_id)
    × (output.competency_focus ≡ inputs.competency_focus)

abbrev AttemptEchoes : AssessorTurnInput → Attempt AssessorOutput → Type 0
AttemptEchoes inputs (Attempt.accepted output) = Echoes inputs output
AttemptEchoes inputs _ = Unit

abbrev pub TurnEchoes : AssessorTurnInput → TurnResult AssessorOutput → Type 0
TurnEchoes inputs (TurnResult.output output) = Echoes inputs output
TurnEchoes inputs _ = Unit

checked-AttemptEchoes :
    (inputs : AssessorTurnInput) (output : AssessorOutput)
    → AttemptEchoes inputs (checked inputs output)
unfolding checked
checked-AttemptEchoes inputs output = ground (
  arith,
  string_eq_iff output.turn_id inputs.turn_id,
  string_eq_iff output.session_id inputs.session_id,
  string_eq_iff output.competency_focus inputs.competency_focus,
)

validated-AttemptEchoes :
    (lib : AssessorLibrary) (inputs : AssessorTurnInput) (outcome : CallOutcome)
    → AttemptEchoes inputs (validated lib inputs outcome)
unfolding validated error_attempt
validated-AttemptEchoes lib inputs outcome = grind (arith, checked-AttemptEchoes)

second_try-TurnEchoes :
    {W : Type 0} (inputs : AssessorTurnInput) (attempt : W → Attempt AssessorOutput × W)
    (first : Attempt AssessorOutput) (w : W)
    → ((v : W) → AttemptEchoes inputs (attempt v).0)
    → AttemptEchoes inputs first
    → TurnEchoes inputs (second_try attempt (first, w)).0
unfolding second_try after_retry
second_try-TurnEchoes inputs attempt first w h k = ground (arith, h w)

with_request-TurnEchoes :
    {W : Type 0} (valid : Bool) (inputs : AssessorTurnInput)
    (attempt : W → Attempt AssessorOutput × W) (w : W)
    → ((v : W) → AttemptEchoes inputs (attempt v).0)
    → TurnEchoes inputs (with_request valid attempt w).0
unfolding with_request with_retry
with_request-TurnEchoes false inputs attempt w h = tt
with_request-TurnEchoes true inputs attempt w h =
    second_try-TurnEchoes inputs attempt (attempt w).0 (attempt w).1 h (h w)

-- An output that a turn of the Assessor returns names the turn, the session and the competency of
-- its inputs, whatever the model answers.
pub run_assessor_turn-Echoes :
    {W : Type 0} (lib : AssessorLibrary) (call_model : ModelCallRequest → W → CallOutcome × W)
    (inputs : AssessorTurnInput) (w : W)
    → TurnEchoes inputs (run_assessor_turn lib call_model inputs w).0
unfolding run_assessor_turn score_once
run_assessor_turn-Echoes lib call_model inputs w =
    with_request-TurnEchoes (is_request (assessor_request lib inputs)) inputs
      (score_once lib call_model inputs) w (λ v. validated-AttemptEchoes lib inputs _)

-- The metadata sent to the model carries the typed ids of the turn and the session whatever the
-- caller's metadata says of them, and the caller's value of every other key.
pub metadata-ids :
    (inputs : AssessorTurnInput) (key : String)
    → key ≢ "turn_id"
    → key ≢ "session_id"
    → (get "turn_id" (metadata inputs) ≡ some (Json.str inputs.turn_id))
      × (get "session_id" (metadata inputs) ≡ some (Json.str inputs.session_id))
      × (get key (metadata inputs) ≡ get key inputs.turn_metadata)
unfolding metadata
metadata-ids inputs key not_turn not_session =
    let with_turn = set "turn_id" (Json.str inputs.turn_id) inputs.turn_metadata in
    let outer = λ (k : String). get-set "session_id" k (Json.str inputs.session_id) with_turn in
    let inner =
      λ (k : String). get-set "turn_id" k (Json.str inputs.turn_id) inputs.turn_metadata in
    (
      ground (arith, outer "turn_id", inner "turn_id", string_eq_iff "session_id" "turn_id"),
      ground (arith, outer "session_id"),
      ground (
        arith,
        outer key,
        inner key,
        string_eq_iff "session_id" key,
        string_eq_iff "turn_id" key,
      ),
    )
