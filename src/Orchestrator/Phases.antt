-- ===== src/Orchestrator/Phases.antt =====
-- The phase diagram of docs/contracts/state-machine.md section 10, and that `transition` keeps to it.
use tech_screen_ai.Prelude.{ℕ, ◌≤◌, ◌≡◌, ◌⊎◌, refl, Bool, true, false, not, List, [], ◌∷◌, arith}
use tech_screen_ai.Orchestrator.Config.{OrchestratorConfig}
use tech_screen_ai.Orchestrator.Event.{Event}
use tech_screen_ai.Orchestrator.Externals.{Externals}
use tech_screen_ai.Orchestrator.Handlers.{
  on_session_started, on_candidate_turn, on_intro_candidate_turn, on_qa_candidate_turn,
  on_timer_tick, on_interviewer_reply, on_interviewer_failed, on_assessment_completed,
  on_assessment_failed, on_reconnected,
}
use tech_screen_ai.Orchestrator.Runs.{OnReturn, run-OnReturn}
use tech_screen_ai.Orchestrator.State.{Phase, is_terminal, SessionState, Result, ok, err, Outcome}
use tech_screen_ai.Orchestrator.TechTurn.{on_tech_candidate_turn, leave_competency, route}
use tech_screen_ai.Orchestrator.Transition.{live_transition, transition, run}

-- The edges of the diagram between two phases, by the event that takes them.
abbrev pub is_edge : Event → Phase → Phase → Bool
is_edge (Event.session_started _) Phase.created Phase.intro = true
is_edge (Event.session_started _) Phase.created Phase.aborted = true
is_edge (Event.candidate_turn_received _ _ _) Phase.intro Phase.tech = true
is_edge (Event.candidate_turn_received _ _ _) Phase.tech Phase.qa = true
is_edge (Event.candidate_turn_received _ _ _) Phase.qa Phase.close = true
is_edge (Event.interviewer_reply_ready _ _ _) Phase.close Phase.completed = true
is_edge (Event.interviewer_failed _ _ _) Phase.tech Phase.aborted = true
is_edge (Event.interviewer_failed _ _ _) Phase.qa Phase.aborted = true
is_edge (Event.timer_tick _) Phase.tech Phase.qa = true
is_edge (Event.timer_tick _) Phase.qa Phase.close = true
is_edge (Event.timer_tick _) Phase.close Phase.completed = true
is_edge (Event.timer_tick _) p Phase.aborted = not (is_terminal p)
is_edge (Event.operator_abort _ _) p Phase.aborted = not (is_terminal p)
is_edge _ _ _ = false

-- The phase stays, or takes an edge.
abbrev pub MayStep : Event → Phase → Result Outcome → Type 0
MayStep e p (ok o) = (o.0.phase ≡ p) ⊎ (is_edge e p o.0.phase ≡ true)
MayStep e p (err _) = Unit

module _ (lib : Externals) (config : OrchestratorConfig) where
  live_transition-MayStep :
      (s : SessionState) (e : Event)
      → is_terminal s.phase ≡ false
      → MayStep e s.phase (live_transition lib config s e)
  unfolding live_transition on_session_started on_candidate_turn on_intro_candidate_turn
      on_qa_candidate_turn on_tech_candidate_turn leave_competency route on_timer_tick
      on_interviewer_reply on_interviewer_failed on_assessment_completed on_assessment_failed
      on_reconnected
  live_transition-MayStep s (Event.session_started now) h = ground arith
  live_transition-MayStep s (Event.candidate_turn_received id text now) h = ground arith
  live_transition-MayStep s (Event.interviewer_reply_ready id output now) h = ground arith
  live_transition-MayStep s (Event.interviewer_failed id kind now) h = ground arith
  live_transition-MayStep s (Event.assessment_completed id output now) h = ground arith
  live_transition-MayStep s (Event.assessment_failed id kind now) h = ground arith
  live_transition-MayStep s (Event.timer_tick now) h = ground arith
  live_transition-MayStep s (Event.reconnected now) h = ground arith
  live_transition-MayStep s (Event.operator_abort reason now) h = ground arith

  -- A transition that returns leaves the phase as it is or takes an edge that the phase diagram
  -- has for its event.
  pub transition-MayStep :
      (s : SessionState) (e : Event) → MayStep e s.phase (transition lib config s e)
  unfolding transition
  transition-MayStep s e = ground (arith, live_transition-MayStep s e)

-- How far along the diagram a phase stands.
abbrev pub rank : Phase → ℕ
rank Phase.created = 0
rank Phase.intro = 1
rank Phase.tech = 2
rank Phase.qa = 3
rank Phase.close = 4
rank Phase.completed = 5
rank Phase.aborted = 5

-- The run returned a phase that is no earlier.
abbrev pub NoEarlier : Phase → Result Outcome → Type 0
NoEarlier p = OnReturn (λ s. rank p ≤ rank s.phase)

NoEarlier-of_MayStep :
    (e : Event) (p q : Phase) (r : Result Outcome) → MayStep e q r → rank p ≤ rank q → NoEarlier p r
NoEarlier-of_MayStep e p q (ok o) h le = ground arith
NoEarlier-of_MayStep e p q (err _) h le = tt

module _ (lib : Externals) (config : OrchestratorConfig) where
  -- Over any events, a run that returns never ends in an earlier phase than it began in.
  pub run-NoEarlier :
      (s : SessionState) (events : List Event) → NoEarlier s.phase (run lib config s events)
  run-NoEarlier s events =
      run-OnReturn lib config (λ t. rank s.phase ≤ rank t.phase)
        (λ t e le.
          NoEarlier-of_MayStep e s.phase t.phase (transition lib config t e)
            (transition-MayStep lib config t e) le)
        s events (omega arith)

  -- From a completed or aborted session, any events change nothing and issue no command.
  pub run-terminal :
      (s : SessionState) (events : List Event)
      → is_terminal s.phase ≡ true
      → run lib config s events ≡ ok (s, [])
  unfolding run transition
  run-terminal s [] h = refl
  run-terminal s (e ∷ events) h = ground (arith, run-terminal s events h)
