-- ===== src/Orchestrator/Handlers/Replies.antt =====
-- The handlers of app/backend/orchestrator/state_machine.py for what the Interviewer
-- answers, and for a reconnection.
use tech_screen_ai.Prelude.{
  ◌+◌, String, Bool, true, false, not, ◌||◌, Option, none, some, [], ◌∷◌, leb, if◌then◌else◌,
  string_eq,
}
use tech_screen_ai.Agents.Output.{InterviewerMove, InterviewerOutput}
use tech_screen_ai.Orchestrator.Budget.{answers_pending_command}
use tech_screen_ai.Orchestrator.Command.{
  Uuid, DecisionReason, RunInterviewer, PendingCommand, Command,
}
use tech_screen_ai.Orchestrator.Config.{OrchestratorConfig}
use tech_screen_ai.Orchestrator.Moves.{abort, complete, ignore}
use tech_screen_ai.Orchestrator.State.{Awaiting, AbortReason, SessionState, Outcome}
use tech_screen_ai.Orchestrator.Handlers.Guards.{in_dialogue, awaits_interviewer, is_close}

-- `event.output.internal_move_executed == state.last_issued_move`
abbrev pub same_move : InterviewerMove → InterviewerMove → Bool
same_move InterviewerMove.ask_seed InterviewerMove.ask_seed = true
same_move InterviewerMove.depth_probe InterviewerMove.depth_probe = true
same_move InterviewerMove.acknowledge_and_transition InterviewerMove.acknowledge_and_transition =
    true
same_move InterviewerMove.redirect InterviewerMove.redirect = true
same_move InterviewerMove.close_competency InterviewerMove.close_competency = true
same_move _ _ = false

abbrev pub has_drifted : Option InterviewerMove → InterviewerMove → Bool
has_drifted none executed = false
has_drifted (some issued) executed = not (same_move executed issued)

-- Edge 4: the utterance is delivered, and drift is counted.
unfoldable pub deliver : SessionState → Uuid → InterviewerOutput → OrchestratorConfig → Outcome
deliver state id output config =
    let drifted = has_drifted state.last_issued_move output.internal_move_executed in
    let drift_count = if drifted then state.tech.drift_count + 1 else state.tech.drift_count in
    let tech = state.tech in
    let delivery = PendingCommand.deliver_utterance id output.utterance in
    (
      record state {
        awaiting = some Awaiting.candidate;
        interviewer_failure_streak = 0;
        tech = record tech { drift_count = drift_count };
        flagged_for_review =
            if drifted
            then state.flagged_for_review || leb config.flags.drift_to_review drift_count
            else state.flagged_for_review;
        pending_command = some delivery;
      },
      Command.outbound delivery ∷ Command.persist_state ∷ [],
    )

unfoldable pub on_interviewer_reply :
    SessionState → Uuid → InterviewerOutput → OrchestratorConfig → Outcome
unfolding answers_pending_command complete deliver ignore
on_interviewer_reply state id output config =
    if not (answers_pending_command state id)
    then ignore state
    else if is_close state.phase
    then complete state
    else if not (in_dialogue state.phase) || not (awaits_interviewer state.awaiting)
    then ignore state
    else deliver state id output config

-- Edges 5 and 6, for the outstanding interviewer command.
unfoldable pub retry_or_abort : SessionState → RunInterviewer → Uuid → String → Outcome
unfolding abort
retry_or_abort state pending id error_kind =
    let retry = PendingCommand.run_interviewer (record pending { retry = true }) in
    if leb 1 state.interviewer_failure_streak
    then abort state AbortReason.fatal_agent_error DecisionReason.agent_failure true
    else (
      record state {
        interviewer_failure_streak = state.interviewer_failure_streak + 1;
        pending_command = some retry;
      },
      Command.outbound retry
          ∷ Command.flag_turn_degraded id error_kind
          ∷ Command.persist_state
          ∷ [],
    )

unfoldable pub on_interviewer_failed : SessionState → Uuid → String → Outcome
unfolding answers_pending_command retry_or_abort ignore
on_interviewer_failed state id error_kind =
    if not (answers_pending_command state id)
    then ignore state
    else if not (in_dialogue state.phase) || not (awaits_interviewer state.awaiting)
    then ignore state
    else elim state.pending_command [
      | none ↦ ignore state
      | some command ↦ elim command [
        | PendingCommand.run_interviewer pending ↦ retry_or_abort state pending id error_kind
        | _ ↦ ignore state
      ]
    ]

unfoldable pub on_reconnected : SessionState → Outcome
on_reconnected state = elim state.pending_command [
  | none ↦ (state, Command.persist_state ∷ [])
  | some command ↦ (state, Command.reissue_pending_command command ∷ Command.persist_state ∷ [])
]
