-- ===== src/Orchestrator/Attribution.antt =====
-- Every pending assessment is attributed: a late failure always finds the node that it belongs to.
use tech_screen_ai.Prelude.{refl, List, arith}
use tech_screen_ai.Prelude.Dict.{lookup, lookup-insert}
use tech_screen_ai.Json.{Fields}
use tech_screen_ai.Orchestrator.Command.{Uuid}
use tech_screen_ai.Orchestrator.Config.{OrchestratorConfig}
use tech_screen_ai.Orchestrator.Coverage.{contains}
use tech_screen_ai.Orchestrator.Coverage.Pending.{
  AttributedAt, contains-append, drop_pending-AttributedAt,
}
use tech_screen_ai.Orchestrator.Event.{Event}
use tech_screen_ai.Orchestrator.Externals.{Externals}
use tech_screen_ai.Orchestrator.Handlers.{
  on_session_started, on_candidate_turn, on_intro_candidate_turn, on_qa_candidate_turn,
  on_timer_tick, on_interviewer_reply, on_interviewer_failed, on_assessment_completed,
  on_assessment_failed, mark_failed, on_reconnected,
}
use tech_screen_ai.Orchestrator.Plan.{PlannedCompetency}
use tech_screen_ai.Orchestrator.Runs.{OnReturn, run-OnReturn}
use tech_screen_ai.Orchestrator.State.{
  Time, TechState, SessionState, Result, Outcome, initial_state,
}
use tech_screen_ai.Orchestrator.TechTurn.{
  on_tech_candidate_turn, leave_competency, route, schedule, mark_gap,
}
use tech_screen_ai.Orchestrator.Transition.{live_transition, transition, run}

schedule-AttributedAt :
    (k id : Uuid) (tech : TechState) (c : PlannedCompetency)
    → AttributedAt k tech
    → AttributedAt k (schedule tech id c)
unfolding schedule
schedule-AttributedAt k id tech c h =
    rw
      (
        contains-append k id tech.pending_assessments,
        lookup-insert id k c.node_id tech.assessment_focus,
      )
      (ground arith)

abbrev pub KeepsAttributed : Uuid → Result Outcome → Type 0
KeepsAttributed k = OnReturn (λ s. AttributedAt k s.tech)

module _ (lib : Externals) (config : OrchestratorConfig) (k : Uuid) where
  on_tech_candidate_turn-KeepsAttributed :
      (s : SessionState) (id : Uuid) (now : Time)
      → AttributedAt k s.tech
      → KeepsAttributed k (on_tech_candidate_turn lib s id now config)
  unfolding on_tech_candidate_turn leave_competency route mark_gap
  on_tech_candidate_turn-KeepsAttributed s id now h = grind (arith, schedule-AttributedAt)

  live_transition-KeepsAttributed :
      (s : SessionState) (e : Event)
      → AttributedAt k s.tech
      → KeepsAttributed k (live_transition lib config s e)
  unfolding live_transition on_session_started on_candidate_turn on_intro_candidate_turn
      on_qa_candidate_turn on_timer_tick on_interviewer_reply on_interviewer_failed
      on_assessment_completed on_assessment_failed mark_failed on_reconnected
  live_transition-KeepsAttributed s (Event.session_started now) h = ground arith
  live_transition-KeepsAttributed s (Event.candidate_turn_received id text now) h =
      ground (arith, on_tech_candidate_turn-KeepsAttributed s id now)
  live_transition-KeepsAttributed s (Event.interviewer_reply_ready id output now) h = ground arith
  live_transition-KeepsAttributed s (Event.interviewer_failed id kind now) h = ground arith
  live_transition-KeepsAttributed s (Event.assessment_completed id output now) h =
      ground (arith, drop_pending-AttributedAt k id s.tech)
  live_transition-KeepsAttributed s (Event.assessment_failed id kind now) h =
      ground (arith, drop_pending-AttributedAt k id s.tech)
  live_transition-KeepsAttributed s (Event.timer_tick now) h = ground arith
  live_transition-KeepsAttributed s (Event.reconnected now) h = ground arith
  live_transition-KeepsAttributed s (Event.operator_abort reason now) h = ground arith

  transition-KeepsAttributed :
      (s : SessionState) (e : Event)
      → AttributedAt k s.tech
      → KeepsAttributed k (transition lib config s e)
  unfolding transition
  transition-KeepsAttributed s e h = ground (arith, live_transition-KeepsAttributed s e)

  -- In every state that a new session comes to, a turn is in pending_assessments exactly when
  -- assessment_focus remembers a rubric node for it.
  pub pending_attributed :
      (session_id : Uuid) (plan_input : Fields) (events : List Event)
      → KeepsAttributed k (run lib config (initial_state session_id plan_input config) events)
  unfolding initial_state contains lookup
  pending_attributed session_id plan_input events =
      run-OnReturn lib config (λ s. AttributedAt k s.tech) transition-KeepsAttributed
        (initial_state session_id plan_input config) events refl
