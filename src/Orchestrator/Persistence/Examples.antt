-- ===== src/Orchestrator/Persistence/Examples.antt =====
-- The sample session is saved and loaded.
use tech_screen_ai.Prelude.{ℕ, ◌≡◌, refl, Option, none, some, [], ◌∷◌, string_eq, arith}
use tech_screen_ai.Prelude.Decimal.{decimal}
use tech_screen_ai.Prelude.Dict.{lookup, insert}
use tech_screen_ai.Prelude.Int.{ℤ, pos}
use tech_screen_ai.Json.{Json, Fields, get}
use tech_screen_ai.Orchestrator.Adjudication.{has_answered, is_level_zero, lacks_evidence}
use tech_screen_ai.Orchestrator.Handlers.{
  on_session_started, on_candidate_turn, on_intro_candidate_turn, on_interviewer_reply,
}
use tech_screen_ai.Orchestrator.Moves.{next_turn_id, time_left, seconds_remaining}
use tech_screen_ai.Orchestrator.Plan.{float_bound}
use tech_screen_ai.Orchestrator.Persistence.{
  Codec, Database, ok as stored, version_key, stored_version, load_session_state, saved,
  encode_session_state, decode_session_state, read_row, is_version,
}
use tech_screen_ai.Orchestrator.Persistence.Resume.{Resumes, run-Resumes}
use tech_screen_ai.Orchestrator.Persistence.RoundTrip.{IsLossless, ReadsVersion, load-version}
use tech_screen_ai.Orchestrator.Runs.{OnReturn}
use tech_screen_ai.Orchestrator.Samples.{sample_lib, sample_config, script, after_script}
use tech_screen_ai.Orchestrator.State.{SessionState, initial_state}
use tech_screen_ai.Orchestrator.TechTurn.{on_tech_candidate_turn, route, adjudicated, schedule}
use tech_screen_ai.Orchestrator.Transition.{live_transition, transition, run}

abbrev at_version : Option ℤ → Option SessionState
at_version (some (pos n)) = some (record after_script { state_schema_version = n })
at_version _ = none

-- pydantic that keeps the version alone, and reads the rest as the sample state.
abbrev sample_codec : Codec
unfolding get stored_version
sample_codec = record {
  model_dump = λ s. Fields.field version_key (Json.int (pos s.state_schema_version)) Fields.end;
  jsonb = λ raw. raw;
  model_validate = λ raw. at_version (stored_version (get version_key raw));
}

sample_codec-IsLossless : IsLossless sample_codec after_script
unfolding get stored_version
sample_codec-IsLossless = record { version = refl; lossless = refl }

at_version-version :
    (found : Option Json) (s : SessionState) (n : ℕ)
    → at_version (stored_version found) ≡ some s
    → found ≡ some (Json.int (pos n))
    → s.state_schema_version ≡ n
unfolding stored_version
at_version-version found s n e v = ground arith

sample_codec-ReadsVersion : ReadsVersion sample_codec
unfolding get stored_version
sample_codec-ReadsVersion raw s n e v = at_version-version (get version_key raw) s n e v

abbrev two_sessions : Database
two_sessions = ("session", none) ∷ ("other", none) ∷ []

load-version_example : after_script.state_schema_version ≡ 1
unfolding lookup load_session_state decode_session_state read_row is_version encode_session_state
    get stored_version
load-version_example =
    load-version sample_codec (("session", some (saved sample_codec after_script)) ∷ []) "session"
      after_script 1 sample_codec-ReadsVersion refl

run-Resumes_example :
    OnReturn
      (Resumes sample_codec two_sessions "session" 1)
      (run sample_lib sample_config (initial_state "session" Fields.end sample_config) script)
unfolding run transition live_transition initial_state on_session_started on_candidate_turn
    on_intro_candidate_turn on_tech_candidate_turn route adjudicated schedule has_answered
    is_level_zero lacks_evidence lookup insert on_interviewer_reply next_turn_id decimal
    seconds_remaining time_left float_bound
run-Resumes_example =
    run-Resumes sample_lib sample_config sample_codec two_sessions "session" none Fields.end script
      sample_codec-IsLossless refl
