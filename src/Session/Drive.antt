-- ===== src/Session/Drive.antt =====
-- The drive loop of app/backend/services/dev_session.py: transition, persist, execute, and again.
pub mod Rank
pub mod Ran
pub mod Round
pub mod Total
pub mod Commands
pub mod Yields
use tech_screen_ai.Prelude.{
  ℕ, zero, suc, String, Bool, true, false, Option, none, some, List, [], ◌∷◌, ◌++◌, length, nat_eq,
  string_eq, if◌then◌else◌,
}
use tech_screen_ai.Prelude.Dict.{insert}
use tech_screen_ai.Orchestrator.Event.{Event}
use tech_screen_ai.Orchestrator.Command.{Command}
use tech_screen_ai.Json.{Json, Items}
use tech_screen_ai.Orchestrator.Persistence.{
  Database, PersistenceError, Stored, encode_session_state, save_session_state,
}
use tech_screen_ai.Orchestrator.State.{SessionState, Result, Outcome}
use tech_screen_ai.Orchestrator.Transition.{transition}
use tech_screen_ai.Session.Execute.{execute}
use tech_screen_ai.Session.Working.{Working, TranscriptEntry}
use tech_screen_ai.Session.World.{
  Wiring, World, Tables, ShellError, Reply, M, ◌>>=◌, ◌>>◌, pure, raise,
}

abbrev pub max_drive_steps : ℕ
max_drive_steps = 64

-- An exception of the core leaves the shell.
abbrev pub lifted : {V A : Type 0} → Result A → M V A
lifted (Result.ok a) = pure a
lifted (Result.err e) = raise (ShellError.machine e)

abbrev pub enter : Working → SessionState → Working
enter working state = record working { state = state }

module _ {V : Type 0} (wiring : Wiring V) where
  -- The documents of the two columns, as they are written and as JSONB holds the second.
  abbrev pub state_document : SessionState → Json
  unfolding encode_session_state
  state_document state = Json.obj (encode_session_state wiring.codec state)

  unfoldable pub dumped : List TranscriptEntry → Items
  dumped [] = Items.nil
  dumped (entry ∷ entries) = Items.cons (wiring.entry_dump entry) (dumped entries)

  unfoldable pub cast_items : Items → Items
  cast_items Items.nil = Items.nil
  cast_items (Items.cons item items) = Items.cons (wiring.entry_jsonb item) (cast_items items)

  abbrev pub saved_log : List TranscriptEntry → Json
  saved_log entries = Json.arr (cast_items (dumped entries))

  -- The second UPDATE of the transaction. Where either fails, neither column is written.
  unfoldable pub written : Working → Bool → World V → Stored Database → Reply (Unit {0}) × World V
  written working accepted w (Stored.err e) = (Reply.failed ShellError.no_row, w)
  written working false w (Stored.ok sessions) = (Reply.failed ShellError.storage_refused, w)
  written working true w (Stored.ok sessions) =
      let tables = w.tables in
      (
        Reply.done tt,
        record w {
          tables = record tables {
            sessions = sessions;
            transcripts =
                insert working.session_id (some (saved_log working.transcript)) tables.transcripts;
          };
        },
      )

  -- The first UPDATE, whose document Postgres may refuse.
  unfoldable pub store_state : Bool → Working → M V (Unit {0})
  unfolding written dumped save_session_state
  store_state false working w = (Reply.failed ShellError.storage_refused, w)
  store_state true working w =
      written working (wiring.accepts (Json.arr (dumped working.transcript))) w
        (save_session_state wiring.codec w.tables.sessions working.session_id working.state)

  unfoldable pub persist : Working → M V (Unit {0})
  unfolding store_state
  persist working = store_state (wiring.accepts (state_document working.state)) working

  -- The chat log has grown: the second `_persist`.
  unfoldable pub persist_growth : ℕ → Working → M V (Unit {0})
  unfolding persist
  persist_growth mark working =
      if nat_eq (length working.transcript) mark then pure tt else persist working

  -- What follows a transition: save the new state, and only then execute its commands.
  unfoldable pub settle : Working → Outcome → M V (Working × List Event)
  unfolding persist execute persist_growth
  settle working (state, commands) = do
    persist (enter working state)
    (after, events) ← execute wiring (enter working state) commands
    persist_growth (length working.transcript) after
    pure (after, events)

  -- One round of the loop.
  unfoldable pub advance : Working → Event → M V (Working × List Event)
  unfolding settle transition
  advance working event = do
    outcome ← lifted (transition wiring.lib wiring.config working.state event)
    settle working outcome

  -- `steps` rounds are left; an event beyond them is a runaway.
  unfoldable pub drive_queue : ℕ → Working → List Event → M V Working
  drive_queue steps working [] = pure working
  drive_queue zero working (event ∷ queue) = raise ShellError.runaway
  drive_queue (suc steps) working (event ∷ queue) = do
    (after, events) ← advance working event
    drive_queue steps after (queue ++ events)

  unfoldable pub drive : Working → Event → M V Working
  unfolding drive_queue
  drive working event = drive_queue max_drive_steps working (event ∷ [])
