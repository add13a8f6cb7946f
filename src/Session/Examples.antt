-- ===== src/Session/Examples.antt =====
-- The shell's theorems on the sample session, with a clock for the outside.
use tech_screen_ai.Prelude.{
  ℕ, ◌+◌, ◌≡◌, refl, true, false, Option, none, some, [], ◌∷◌, inl, string_eq,
}
use tech_screen_ai.Prelude.Dict.{lookup, insert}
use tech_screen_ai.Prelude.Int.{pos}
use tech_screen_ai.Json.{Json, Items, Fields, get}
use tech_screen_ai.Agents.Assessor.{AssessorLibrary}
use tech_screen_ai.Agents.Call.{CallOutcome, WrapperError}
use tech_screen_ai.Agents.Interviewer.{InterviewerLibrary}
use tech_screen_ai.Agents.Output.{InterviewerMove}
use tech_screen_ai.Orchestrator.Adjudication.{seconds}
use tech_screen_ai.Orchestrator.Command.{Uuid}
use tech_screen_ai.Orchestrator.Event.{Event}
use tech_screen_ai.Orchestrator.Handlers.{on_reconnected}
use tech_screen_ai.Orchestrator.Persistence.{
  Codec, saved, version_key, encode_session_state, save_session_state, update_row,
}
use tech_screen_ai.Orchestrator.Persistence.RoundTrip.{IsLossless}
use tech_screen_ai.Orchestrator.Samples.{
  sample_lib, sample_config, sample_lib-Validates, asked, asked-IsSound, spoken,
}
use tech_screen_ai.Orchestrator.State.{Phase, SessionState}
use tech_screen_ai.Orchestrator.Transition.{transition, live_transition}
use tech_screen_ai.Session.Drive.{
  dumped, cast_items, saved_log, written, store_state, persist, persist_growth, settle, advance,
  drive_queue, drive,
}
use tech_screen_ai.Session.Drive.Ran.{IsReadable}
use tech_screen_ai.Session.Drive.Yields.{Yields}
use tech_screen_ai.Session.Execute.{execute, execute_one, execute_pending}
use tech_screen_ai.Session.Service.{load, post_turn}
use tech_screen_ai.Session.Service.Reload.{drive-Reloads}
use tech_screen_ai.Session.Service.Turns.{post_turn-refuses}
use tech_screen_ai.Session.Working.{Working, TranscriptEntry, TranscriptRole, append}
use tech_screen_ai.Session.World.{Wiring, World, Reply, ShellError}

-- pydantic that writes the version, and reads every document as the state.
abbrev codec_of : SessionState → Codec
codec_of state = record {
  model_dump = λ s. Fields.field version_key (Json.int (pos s.state_schema_version)) Fields.end;
  jsonb = λ raw. raw;
  model_validate = λ raw. some state;
}

abbrev assessor : AssessorLibrary
assessor = record {
  system_prompt = "…";
  output_schema = Fields.end;
  dumps = λ payload. "…";
  model_validate = λ parsed. none;
}

abbrev interviewer : InterviewerLibrary
interviewer = record {
  system_prompt = "…";
  output_schema = Fields.end;
  serialize = λ i. "…";
  model_validate = λ parsed. some (spoken InterviewerMove.ask_seed);
}

-- The entries of the Interviewer, as pydantic writes and reads them.
abbrev uuid_json : Option Uuid → Json
uuid_json none = Json.null
uuid_json (some id) = Json.str id

abbrev read_entry : Json → Option TranscriptEntry
read_entry
      (Json.obj (
        Fields.field r
          (Json.str role)
          (Fields.field t (Json.str words) (Fields.field i (Json.str id) Fields.end)))) =
    some (record { role = TranscriptRole.interviewer; text = words; turn_id = some id })
read_entry _ = none

-- A model that is unavailable, a clock that counts, and a budget that is never spent.
abbrev wiring : Wiring ℕ
wiring = record {
  lib = sample_lib;
  config = sample_config;
  codec = codec_of asked;
  interviewer = interviewer;
  assessor = assessor;
  accepts = λ document. true;
  entry_jsonb = λ entry. entry;
  entry_dump = λ entry. Json.obj (
      Fields.field "role" (Json.str "interviewer") (
        Fields.field "text" (Json.str entry.text)
          (Fields.field "turn_id" (uuid_json entry.turn_id) Fields.end)));
  entry_validate = read_entry;
  plan_payload = λ plan. Fields.end;
  competency_payload = λ competency. Fields.end;
  render_script = λ path variables. some "…";
  now = λ v. (seconds v, v + 10);
  exceeds_budget = λ id tables v. (false, v);
  session_total = λ id tables v. (0, v);
  call_model = λ request tables v. (CallOutcome.raised WrapperError.upstream_unavailable, v + 1);
  fresh_id = λ v. ("fresh", v);
}

wiring-IsReadable : IsReadable wiring
wiring-IsReadable path variables = refl

abbrev asked_working : Working
asked_working = record { session_id = "session"; state = asked; transcript = [] }

abbrev column : SessionState → Option Json
column state = some (saved (codec_of asked) state)

abbrev world_of : SessionState → World ℕ
world_of state = record {
  tables = record {
    sessions = ("session", column state) ∷ [];
    transcripts = ("session", some (Json.arr Items.nil)) ∷ [];
    decisions = [];
  };
  tasks = [];
  outside = 70;
}

asked-IsLossless : IsLossless (codec_of asked) asked
unfolding get encode_session_state
asked-IsLossless = record { version = refl; lossless = refl }

abbrev ended : SessionState
ended = record asked { phase = Phase.completed }

abbrev ended_wiring : Wiring ℕ
ended_wiring = record wiring { codec = codec_of ended }

post_turn-refuses_example :
    post_turn ended_wiring "session" "…" (world_of ended)
    ≡ (Reply.failed ShellError.not_awaiting_candidate, world_of ended)
unfolding lookup get encode_session_state cast_items dumped
post_turn-refuses_example =
    post_turn-refuses ended_wiring (record asked_working { state = ended }) "…" (world_of ended)
      (record { row = refl; log = refl }) refl (record { version = refl; lossless = refl }) tt
      (inl refl)

-- After a reconnection the outstanding question is in the log again.
abbrev asked_again : Working
asked_again = record asked_working {
  transcript =
      record { role = TranscriptRole.interviewer; text = "…"; turn_id = some "turn/1" } ∷ [];
}

abbrev world_again : World ℕ
world_again = record {
  tables = record {
    sessions = ("session", column asked) ∷ [];
    transcripts = ("session", some (saved_log wiring asked_again.transcript)) ∷ [];
    decisions = [];
  };
  tasks = [];
  outside = 70;
}

reconnected_test :
    drive wiring asked_working (Event.reconnected (seconds 60)) (world_of asked)
    ≡ (Reply.done asked_again, world_again)
unfolding drive drive_queue advance settle persist persist_growth store_state written dumped
    cast_items transition live_transition on_reconnected execute execute_one execute_pending append
    lookup insert encode_session_state save_session_state update_row
reconnected_test = refl

drive-Reloads_example : load wiring "session" world_again ≡ (Reply.done asked_again, world_again)
unfolding lookup
drive-Reloads_example =
    drive-Reloads wiring asked_working asked_again (Event.reconnected (seconds 60)) (world_of asked)
      world_again sample_lib-Validates wiring-IsReadable asked-IsSound refl refl reconnected_test
      asked-IsLossless (refl, tt)
