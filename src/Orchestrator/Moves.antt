-- ===== src/Orchestrator/Moves.antt =====
-- Turn ids, plan access and the state constructors of app/backend/orchestrator/state_machine.py.
use Prim.Native.String.{◌++◌}
use tech_screen_ai.Prelude.{
  ℕ, ◌+◌, ◌*◌, String, Bool, false, Option, none, some, [], ◌∷◌, if◌then◌else◌, ltb,
}
use tech_screen_ai.Prelude.Decimal.{decimal}
use tech_screen_ai.Prelude.Int.{ℤ, pos, sub_ℕ, ◌-ℤ◌}
use tech_screen_ai.Agents.Output.{InterviewerMove}
use tech_screen_ai.Orchestrator.Command.{
  Uuid, MoveContext, DecisionReason, RunInterviewer, PendingCommand, Command, closing_script_path,
}
use tech_screen_ai.Orchestrator.Plan.{PlannedCompetency, PlanSnapshot, competency, float_bound}
use tech_screen_ai.Orchestrator.Adjudication.{seconds}
use tech_screen_ai.Orchestrator.Context.{qa_context}
use tech_screen_ai.Orchestrator.State.{
  Phase, Awaiting, AbortReason, Time, SessionState, StateError, Result, ok, err, ◌>>=◌, Outcome,
}
use tech_screen_ai.Orchestrator.Externals.{Externals}

unfoldable pub turn_path : ℕ → String
turn_path turn_seq = "turn/" ++ decimal turn_seq

unfoldable pub require_plan : SessionState → Result PlanSnapshot
require_plan state = elim state.plan [
  | none ↦ err (StateError.no_plan state.phase)
  | some plan ↦ ok plan
]

unfoldable pub current_competency : SessionState → Result PlannedCompetency
unfolding require_plan
current_competency state = do
  plan ← require_plan state
  elim (competency plan state.tech.competency_index) [
    | none ↦ err (StateError.outside_plan state.tech.competency_index)
    | some c ↦ ok c
  ]

abbrev pub minutes : ℕ → ℕ
minutes n = seconds (60 * n)

-- In microseconds; negative once the budget is overspent.
unfoldable pub time_left : PlannedCompetency → Option Time → Time → ℤ
time_left c none now = pos (minutes c.minutes)
time_left c (some started_at) now = pos (minutes c.minutes) -ℤ sub_ℕ now started_at

unfoldable pub seconds_remaining : PlannedCompetency → Option Time → Time → Result ℤ
seconds_remaining c started_at now =
    if ltb c.minutes float_bound then ok (time_left c started_at now) else err StateError.overflow

unfoldable pub ignore : SessionState → Outcome
ignore state = (state, [])

module _ (lib : Externals) where
  unfoldable pub derive_turn_id : Uuid → String → Uuid
  derive_turn_id session_id path = lib.uuid5 session_id path

  -- The id of the next outbound turn.
  unfoldable pub next_turn_id : SessionState → Uuid
  unfolding derive_turn_id turn_path
  next_turn_id state = derive_turn_id state.session_id (turn_path state.turn_seq)

  abbrev pub interviewer_command :
      SessionState → InterviewerMove → Option String → MoveContext → RunInterviewer
  interviewer_command state move node context = record {
    turn_id = next_turn_id state;
    move = move;
    competency_node_id = node;
    move_context = context;
    retry = false;
  }

  unfoldable pub issue_interviewer :
      SessionState → InterviewerMove → Option String → MoveContext → SessionState × Command
  issue_interviewer state move node context =
      let command = PendingCommand.run_interviewer (interviewer_command state move node context) in
      (
        record state {
          turn_seq = state.turn_seq + 1;
          awaiting = some Awaiting.interviewer;
          last_issued_move = some move;
          interviewer_failure_streak = 0;
          pending_command = some command;
        },
        Command.outbound command,
      )

  unfoldable pub enter_close : SessionState → Outcome
  enter_close state =
      let closing = PendingCommand.emit_scripted_closing (next_turn_id state) closing_script_path in
      (
        record state {
          phase = Phase.close;
          awaiting = some Awaiting.interviewer;
          last_issued_move = none;
          turn_seq = state.turn_seq + 1;
          pending_command = some closing;
        },
        Command.outbound closing ∷ Command.persist_state ∷ [],
      )

  unfoldable pub enter_qa : SessionState → Time → Result (SessionState × Command)
  unfolding require_plan issue_interviewer qa_context
  enter_qa state now = do
    plan ← require_plan state
    ok (
        issue_interviewer (record state { phase = Phase.qa; qa_started_at = some now })
          InterviewerMove.acknowledge_and_transition none (qa_context plan))

unfoldable pub abort : SessionState → AbortReason → DecisionReason → Bool → Outcome
abort state reason decision persist = (
  record state {
    phase = Phase.aborted;
    abort_reason = some reason;
    awaiting = none;
    pending_command = none;
  },
  Command.record_decision decision ∷ (if persist then Command.persist_state ∷ [] else []),
)

unfoldable pub complete : SessionState → Outcome
complete state = (
  record state { phase = Phase.completed; awaiting = none; pending_command = none },
  Command.end_session ∷ Command.record_decision DecisionReason.completed ∷ [],
)
