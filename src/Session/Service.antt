-- ===== src/Session/Service.antt =====
-- The operations of app/backend/services/dev_session.py: create, read, post a turn, run a task.
pub mod Reload
pub mod Turns
pub mod Creation
use tech_screen_ai.Prelude.{
  ℕ, String, Bool, true, false, not, ◌&&◌, Option, none, some, List, [], ◌∷◌, ◌++◌, length,
  if◌then◌else◌, string_eq,
}
use mathlib.Core.List.{reverse}
use tech_screen_ai.Prelude.Dict.{insert, lookup}
use tech_screen_ai.Json.{Json, Items, Fields}
use tech_screen_ai.Agents.Assessor.{run_assessor_turn}
use tech_screen_ai.Orchestrator.Command.{Uuid}
use tech_screen_ai.Orchestrator.Event.{Event}
use tech_screen_ai.Orchestrator.Persistence.{PersistenceError, Stored, load_session_state}
use tech_screen_ai.Orchestrator.State.{
  Phase, Awaiting, AbortReason, Coverage, SessionState, initial_state, is_terminal,
}
use tech_screen_ai.Session.Drive.{drive, persist}
use tech_screen_ai.Session.Execute.{assessor_event, timed}
use tech_screen_ai.Session.Inputs.{drop}
use tech_screen_ai.Session.View.{SessionView, TurnResult, last_utterance, view}
use tech_screen_ai.Session.Working.{
  Working, TranscriptEntry, TranscriptRole, append, candidate_turn_id, count_turns, is_interviewer,
}
use tech_screen_ai.Session.World.{
  Wiring, World, Tables, AssessorTask, ShellError, Reply, M, ◌>>=◌, ◌>>◌, pure, raise, ask,
  ask_with,
}

-- In INTRO a turn is taken whoever is awaited; the opening needs no answer of an agent.
unfoldable pub takes_turn : Phase → Option Awaiting → Bool
takes_turn Phase.intro _ = true
takes_turn _ (some Awaiting.candidate) = true
takes_turn _ _ = false

-- The plan was refused at the start.
abbrev pub is_refused : SessionState → Bool
is_refused state = elim state.phase [
  | Phase.aborted ↦ elim state.plan [ none ↦ true | some _ ↦ false ]
  | _ ↦ false
]

abbrev prepend : TranscriptEntry → Option (List TranscriptEntry) → Option (List TranscriptEntry)
prepend entry none = none
prepend entry (some entries) = some (entry ∷ entries)

module _ {V : Type 0} (wiring : Wiring V) where
  -- `TranscriptEntry.model_validate` of each element; the first that fails raises.
  unfoldable pub decode_entries : Items → Option (List TranscriptEntry)
  decode_entries Items.nil = some []
  decode_entries (Items.cons item items) = elim (wiring.entry_validate item) [
    | none ↦ none
    | some entry ↦ prepend entry (decode_entries items)
  ]

  -- A column that is NULL is an empty log; one that is no array raises.
  unfoldable pub decode_transcript : Option Json → Option (List TranscriptEntry)
  unfolding decode_entries
  decode_transcript none = some []
  decode_transcript (some (Json.arr items)) = decode_entries items
  decode_transcript (some _) = none

  -- The column `dev_transcript` of a row that is there.
  abbrev pub log_column : Option (Option Json) → Option Json
  log_column none = none
  log_column (some column) = column

  abbrev pub assembled : Uuid → SessionState → Option (List TranscriptEntry) → M V Working
  assembled id state none = raise ShellError.log_unreadable
  assembled id state (some entries) =
      pure (record { session_id = id; state = state; transcript = entries })

  -- The row that is there already, if any, is given: the primary key refuses a second one.
  unfoldable pub insert_row : Option (Option Json) → Uuid → M V (Unit {0})
  insert_row (some _) id w = (Reply.failed ShellError.duplicate_row, w)
  insert_row none id w =
      let tables = w.tables in
      (
        Reply.done tt,
        record w {
          tables = record tables {
            sessions = insert id none tables.sessions;
            transcripts = insert id none tables.transcripts;
          };
        },
      )

  unfoldable pub insert_session : Uuid → M V (Unit {0})
  unfolding insert_row
  insert_session id w = insert_row (lookup id w.tables.sessions) id w

  -- An id that is given, or a fresh one.
  unfoldable pub choose_id : Option Uuid → M V Uuid
  choose_id (some id) = pure id
  choose_id none = ask wiring.fresh_id

  unfoldable pub rehydrate : Uuid → Stored (Option SessionState) → M V Working
  unfolding decode_transcript
  rehydrate id (Stored.err PersistenceError.not_found) w =
      (Reply.failed ShellError.session_not_found, w)
  rehydrate id (Stored.err _) w = (Reply.failed ShellError.state_unreadable, w)
  rehydrate id (Stored.ok none) w = (Reply.failed ShellError.session_not_found, w)
  rehydrate id (Stored.ok (some state)) w =
      assembled id state (decode_transcript (log_column (lookup id w.tables.transcripts))) w

  unfoldable pub load : Uuid → M V Working
  unfolding rehydrate load_session_state
  load id w =
      rehydrate id
        (load_session_state wiring.codec w.tables.sessions id wiring.config.state_schema_version) w

  unfoldable pub get_session : Uuid → M V SessionView
  unfolding load view
  get_session id = do working ← load id; view wiring working

  -- The view of a session, unless its plan was refused.
  unfoldable pub accepted_if : Bool → Working → M V SessionView
  unfolding view
  accepted_if true working = raise ShellError.plan_invalid
  accepted_if false working = view wiring working

  unfoldable pub accepted : Working → M V SessionView
  unfolding accepted_if
  accepted working = accepted_if (is_refused working.state) working

  unfoldable pub create_session : Fields → Option Uuid → M V SessionView
  unfolding choose_id insert_session persist drive accepted
  create_session plan given = do
    id ← choose_id given
    insert_session id
    let working : Working = record {
      session_id = id;
      state = initial_state id plan wiring.config;
      transcript = [];
    }
    persist wiring working
    now ← ask wiring.now
    started ← drive wiring working (Event.session_started now)
    accepted started

  -- The candidate's turn, once the session is known to take one.
  unfoldable pub apply_turn : Working → String → M V TurnResult
  unfolding drive append count_turns candidate_turn_id view last_utterance drop
  apply_turn working candidate_text = do
    let id = candidate_turn_id wiring.lib working.session_id (count_turns working.transcript)
    let heard = append working TranscriptRole.candidate candidate_text (some id)
    now ← ask wiring.now
    after ← drive wiring heard (Event.candidate_turn_received id candidate_text now)
    session ← view wiring after
    pure (record {
      utterance = last_utterance (reverse (drop (length heard.transcript) after.transcript));
      session = session;
    })

  -- The two refusals of a turn.
  unfoldable pub take_turn : Working → String → M V TurnResult
  unfolding apply_turn takes_turn
  take_turn working candidate_text =
      if is_terminal working.state.phase
      then raise ShellError.not_awaiting_candidate
      else if takes_turn working.state.phase working.state.awaiting
      then apply_turn working candidate_text
      else raise ShellError.not_awaiting_candidate

  unfoldable pub post_turn : Uuid → String → M V TurnResult
  unfolding load take_turn
  post_turn id candidate_text = do working ← load id; take_turn working candidate_text

  -- The event of an Assessor's turn, or the abort that the guard asks for.
  unfoldable pub assess : AssessorTask → Bool → M V Event
  unfolding assessor_event
  assess task true = do
    now ← ask wiring.now
    pure (Event.operator_abort AbortReason.cost_ceiling now)
  assess task false = do
    result ← ask_with (λ tables.
        run_assessor_turn wiring.assessor (λ request. wiring.call_model request tables) task.inputs)
    timed wiring (assessor_event task.turn_id result)

  -- A scheduled task: score, reload the session, and drive the event.
  unfoldable pub run_task : AssessorTask → M V (Unit {0})
  unfolding assess load drive
  run_task task = do
    exceeded ← ask_with (wiring.exceeds_budget task.session_id)
    event ← assess task exceeded
    working ← load task.session_id
    after ← drive wiring working event
    pure tt
