-- ===== src/Orchestrator/Invariant/Runs.antt =====
-- The machine never raises on a state that it can reach, whatever the events.
use tech_screen_ai.Prelude.{◌≡◌, true, ltb, List, arith}
use tech_screen_ai.Json.{Fields}
use tech_screen_ai.Orchestrator.Command.{Uuid, DecisionReason}
use tech_screen_ai.Orchestrator.Config.{OrchestratorConfig}
use tech_screen_ai.Orchestrator.Event.{Event}
use tech_screen_ai.Orchestrator.Externals.{Externals, Validates}
use tech_screen_ai.Orchestrator.Plan.{timedelta_bound}
use tech_screen_ai.Orchestrator.Transition.{live_transition, transition, run}
use tech_screen_ai.Orchestrator.Runs.{run-Reaches}
use tech_screen_ai.Orchestrator.State.{SessionState, initial_state}
use tech_screen_ai.Orchestrator.Invariant.{Keeps, IsSound}
use tech_screen_ai.Orchestrator.Invariant.Handlers.{
  abort-IsSound, on_interviewer_reply-IsSound, on_interviewer_failed-IsSound,
  on_assessment_completed-IsSound, on_assessment_failed-IsSound, on_reconnected-IsSound,
}
use tech_screen_ai.Orchestrator.Invariant.Steps.{
  on_session_started-IsSound, on_candidate_turn-IsSound, on_timer_tick-IsSound,
}

module _ (lib : Externals) (config : OrchestratorConfig) (v : Validates lib) where
  live_transition-IsSound :
      (s : SessionState) (event : Event)
      → IsSound config s
      → Keeps config (live_transition lib config s event)
  unfolding live_transition
  live_transition-IsSound s (Event.session_started now) h =
      ground (arith, on_session_started-IsSound lib config s h now v)
  live_transition-IsSound s (Event.candidate_turn_received id text now) h =
      ground (arith, on_candidate_turn-IsSound lib config s h id now)
  live_transition-IsSound s (Event.interviewer_reply_ready id output now) h =
      ground (arith, on_interviewer_reply-IsSound config s h id output)
  live_transition-IsSound s (Event.interviewer_failed id kind now) h =
      ground (arith, on_interviewer_failed-IsSound config s h id kind)
  live_transition-IsSound s (Event.assessment_completed id output now) h =
      on_assessment_completed-IsSound config s h id output
  live_transition-IsSound s (Event.assessment_failed id kind now) h =
      on_assessment_failed-IsSound config s h id
  live_transition-IsSound s (Event.timer_tick now) h = on_timer_tick-IsSound lib config s h now
  live_transition-IsSound s (Event.reconnected now) h = on_reconnected-IsSound config s h
  live_transition-IsSound s (Event.operator_abort reason now) h =
      abort-IsSound config s h reason DecisionReason.operator true

  pub transition-IsSound :
      (s : SessionState) (event : Event)
      → IsSound config s
      → Keeps config (transition lib config s event)
  unfolding transition
  transition-IsSound s event h = ground (arith, live_transition-IsSound s event h)

pub initial_state-IsSound :
    (config : OrchestratorConfig) (session_id : Uuid) (plan_input : Fields)
    → ltb config.timing.candidate_timeout_minutes timedelta_bound ≡ true
    → IsSound config (initial_state session_id plan_input config)
unfolding initial_state
initial_state-IsSound config session_id plan_input fits = ground arith

-- From a new session, whatever the events, transition never raises, and the state that the run
-- ends in is sound: each phase has its plan, its clocks and its outstanding command, at most one
-- failure is on the ladder, and the probes spent are within their budget. pydantic must return
-- only plans within the declared bounds, whose minutes fit in a timedelta or a float as the code
-- converts them, and the candidate timeout must fit in a timedelta.
pub session_sound :
    (lib : Externals) (config : OrchestratorConfig) (session_id : Uuid) (plan_input : Fields)
    (events : List Event)
    → Validates lib
    → ltb config.timing.candidate_timeout_minutes timedelta_bound ≡ true
    → Keeps config (run lib config (initial_state session_id plan_input config) events)
session_sound lib config session_id plan_input events v fits =
    run-Reaches lib config (IsSound config) (transition-IsSound lib config v)
      (initial_state session_id plan_input config) events
      (initial_state-IsSound config session_id plan_input fits)
