-- ===== src/Orchestrator/Transition.antt =====
-- `transition` of app/backend/orchestrator/state_machine.py, and its runs over lists of events.
use tech_screen_ai.Prelude.{true, List, [], ◌∷◌, ◌++◌, if◌then◌else◌}
use tech_screen_ai.Orchestrator.Command.{DecisionReason}
use tech_screen_ai.Orchestrator.Config.{OrchestratorConfig}
use tech_screen_ai.Orchestrator.Event.{Event}
use tech_screen_ai.Orchestrator.Externals.{Externals}
use tech_screen_ai.Orchestrator.Handlers.{
  on_session_started, on_candidate_turn, on_timer_tick, on_interviewer_reply, on_interviewer_failed,
  on_assessment_completed, on_assessment_failed, on_reconnected,
}
use tech_screen_ai.Orchestrator.Moves.{abort, ignore}
use tech_screen_ai.Orchestrator.State.{Phase, is_terminal, SessionState, Result, ok, ◌>>=◌, Outcome}

module _ (lib : Externals) (config : OrchestratorConfig) where
  -- The tests on the phase that follow those on the event.
  abbrev when_created : Phase → Result Outcome → Result Outcome → Result Outcome
  when_created Phase.created here there = here
  when_created _ here there = there

  -- `transition` in a phase that is not terminal.
  unfoldable pub live_transition : SessionState → Event → Result Outcome
  unfolding abort ignore
  live_transition state (Event.assessment_completed id output now) =
      ok (on_assessment_completed state id output config)
  live_transition state (Event.assessment_failed id error_kind now) =
      ok (on_assessment_failed state id)
  live_transition state (Event.operator_abort reason now) =
      ok (abort state reason DecisionReason.operator true)
  live_transition state (Event.reconnected now) = ok (on_reconnected state)
  live_transition state (Event.timer_tick now) = on_timer_tick lib state now config
  live_transition state (Event.session_started now) =
      when_created state.phase (ok (on_session_started lib state now)) (ok (ignore state))
  live_transition state (Event.candidate_turn_received id text now) =
      when_created state.phase (ok (ignore state)) (on_candidate_turn lib state id now config)
  live_transition state (Event.interviewer_reply_ready id output now) =
      when_created state.phase (ok (ignore state))
        (ok (on_interviewer_reply state id output config))
  live_transition state (Event.interviewer_failed id error_kind now) =
      when_created state.phase (ok (ignore state)) (ok (on_interviewer_failed state id error_kind))

  unfoldable pub transition : SessionState → Event → Result Outcome
  unfolding ignore
  transition state event =
      if is_terminal state.phase then ok (ignore state) else live_transition state event

  -- The transitions of a list of events, with all commands in order.
  unfoldable pub run : SessionState → List Event → Result Outcome
  run state [] = ok (state, [])
  run state (event ∷ events) = do
    (mid, now_) ← transition state event
    (last, later) ← run mid events
    ok (last, now_ ++ later)
