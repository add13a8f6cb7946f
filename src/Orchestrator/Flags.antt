-- ===== src/Orchestrator/Flags.antt =====
-- The review flag of a session is exactly its two counters compared with their thresholds.
use tech_screen_ai.Prelude.{◌≡◌, ◌||◌, List, leb, arith}
use tech_screen_ai.Json.{Fields}
use tech_screen_ai.Orchestrator.Command.{Uuid}
use tech_screen_ai.Orchestrator.Config.{OrchestratorConfig, IsConfig}
use tech_screen_ai.Orchestrator.Event.{Event}
use tech_screen_ai.Orchestrator.Externals.{Externals}
use tech_screen_ai.Orchestrator.Handlers.{
  on_session_started, on_candidate_turn, on_intro_candidate_turn, on_qa_candidate_turn,
  on_timer_tick, on_interviewer_reply, on_interviewer_failed, on_assessment_completed,
  on_assessment_failed, mark_failed, on_reconnected,
}
use tech_screen_ai.Orchestrator.Runs.{OnReturn, run-OnReturn}
use tech_screen_ai.Orchestrator.State.{SessionState, Result, Outcome, initial_state}
use tech_screen_ai.Orchestrator.TechTurn.{
  on_tech_candidate_turn, leave_competency, route, schedule, mark_gap,
}
use tech_screen_ai.Orchestrator.Transition.{live_transition, transition, run}

-- `flagged_for_review` says that a threshold is reached.
abbrev pub IsFlagged : OrchestratorConfig → SessionState → Type 0
IsFlagged config s = s.flagged_for_review ≡ (
    leb config.flags.cheat_flags_to_review s.cheat_flag_count
    || leb config.flags.drift_to_review s.tech.drift_count)

abbrev pub KeepsFlag : OrchestratorConfig → Result Outcome → Type 0
KeepsFlag config = OnReturn (IsFlagged config)

module _ (lib : Externals) (config : OrchestratorConfig) where
  live_transition-KeepsFlag :
      (s : SessionState) (e : Event)
      → IsFlagged config s
      → KeepsFlag config (live_transition lib config s e)
  unfolding live_transition on_session_started on_candidate_turn on_intro_candidate_turn
      on_qa_candidate_turn on_tech_candidate_turn leave_competency route schedule mark_gap
      on_timer_tick on_interviewer_reply on_interviewer_failed on_assessment_completed
      on_assessment_failed mark_failed on_reconnected
  live_transition-KeepsFlag s (Event.session_started now) h = ground arith
  live_transition-KeepsFlag s (Event.candidate_turn_received id text now) h = ground arith
  live_transition-KeepsFlag s (Event.interviewer_reply_ready id output now) h = ground arith
  live_transition-KeepsFlag s (Event.interviewer_failed id kind now) h = ground arith
  live_transition-KeepsFlag s (Event.assessment_completed id output now) h = ground arith
  live_transition-KeepsFlag s (Event.assessment_failed id kind now) h = ground arith
  live_transition-KeepsFlag s (Event.timer_tick now) h = ground arith
  live_transition-KeepsFlag s (Event.reconnected now) h = ground arith
  live_transition-KeepsFlag s (Event.operator_abort reason now) h = ground arith

  transition-KeepsFlag :
      (s : SessionState) (e : Event)
      → IsFlagged config s
      → KeepsFlag config (transition lib config s e)
  unfolding transition
  transition-KeepsFlag s e h = ground (arith, live_transition-KeepsFlag s e h)

  -- With thresholds within their declared bounds, in every state that a new session comes to,
  -- flagged_for_review is exactly the disjunction of the two threshold tests, on the cheating
  -- counter and on the drift counter.
  pub flag_exact :
      (session_id : Uuid) (plan_input : Fields) (events : List Event)
      → IsConfig config
      → KeepsFlag config (run lib config (initial_state session_id plan_input config) events)
  unfolding initial_state
  flag_exact session_id plan_input events h =
      run-OnReturn lib config (IsFlagged config) transition-KeepsFlag
        (initial_state session_id plan_input config) events (ground arith)
