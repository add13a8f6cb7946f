-- ===== src/Session/Drive/Rank.antt =====
-- How many rounds of the drive loop an event can still cause, and that each round costs one.
use tech_screen_ai.Prelude.{ℕ, zero, suc, ◌+◌, ◌≤◌, ◌<◌, List, [], ◌∷◌, arith}
use tech_screen_ai.Orchestrator.Command.{PendingCommand, Command}
use tech_screen_ai.Orchestrator.Config.{OrchestratorConfig}
use tech_screen_ai.Orchestrator.Event.{Event}
use tech_screen_ai.Orchestrator.Externals.{Externals}
use tech_screen_ai.Orchestrator.Handlers.{
  on_session_started, on_candidate_turn, on_intro_candidate_turn, on_qa_candidate_turn,
  on_timer_tick, on_interviewer_reply, on_interviewer_failed, on_assessment_completed,
  on_assessment_failed, on_reconnected,
}
use tech_screen_ai.Orchestrator.State.{Phase, SessionState, Result, ok, err, Outcome}
use tech_screen_ai.Orchestrator.TechTurn.{on_tech_candidate_turn, leave_competency, route}
use tech_screen_ai.Orchestrator.Transition.{live_transition, transition}

-- A failure of the Interviewer is retried once.
abbrev pub failure_rank : ℕ → ℕ
failure_rank zero = 2
failure_rank (suc streak) = 1

abbrev pub tick_rank : Phase → ℕ
tick_rank Phase.close = 1
tick_rank _ = 3

-- The most that the event of a command can cause, in the state that issued it.
abbrev pub pending_rank : SessionState → PendingCommand → ℕ
pending_rank s (PendingCommand.run_interviewer c) = failure_rank s.interviewer_failure_streak
pending_rank s (PendingCommand.emit_scripted_closing id path) = tick_rank s.phase
pending_rank s _ = 0

abbrev pub command_rank : SessionState → Command → ℕ
command_rank s (Command.outbound c) = pending_rank s c
command_rank s (Command.reissue_pending_command c) = pending_rank s c
command_rank s _ = 0

abbrev pub commands_rank : SessionState → List Command → ℕ
commands_rank s [] = 0
commands_rank s (c ∷ cs) = command_rank s c + commands_rank s cs

-- The rounds that an event takes, its own included.
abbrev pub rank : SessionState → Event → ℕ
rank s (Event.interviewer_failed id kind now) = failure_rank s.interviewer_failure_streak
rank s (Event.timer_tick now) = tick_rank s.phase
rank s (Event.candidate_turn_received id text now) = 3
rank s (Event.reconnected now) = 4
rank s _ = 1

-- A command that leads to an event.
abbrev pub asks : PendingCommand → ℕ
asks (PendingCommand.run_interviewer c) = 1
asks (PendingCommand.emit_scripted_closing id path) = 1
asks _ = 0

abbrev pub command_asks : Command → ℕ
command_asks (Command.outbound c) = asks c
command_asks (Command.reissue_pending_command c) = asks c
command_asks _ = 0

abbrev pub count_asks : List Command → ℕ
count_asks [] = 0
count_asks (c ∷ cs) = command_asks c + count_asks cs

-- What a round leaves is cheaper than its event, and it asks at most once.
abbrev pub Descends : SessionState → Event → Result Outcome → Type 0
Descends s e (ok o) = (commands_rank o.0 o.1 < rank s e) × (count_asks o.1 ≤ 1)
Descends s e (err _) = Unit

pending_rank-le : (s : SessionState) (c : PendingCommand) → (pending_rank s c ≤ 3) × (asks c ≤ 1)
pending_rank-le s c = ground arith

module _ (lib : Externals) (config : OrchestratorConfig) where
  live_transition-Descends :
      (s : SessionState) (e : Event) → Descends s e (live_transition lib config s e)
  unfolding live_transition on_session_started on_candidate_turn on_intro_candidate_turn
      on_qa_candidate_turn on_tech_candidate_turn leave_competency route on_timer_tick
      on_interviewer_reply on_interviewer_failed on_assessment_completed on_assessment_failed
      on_reconnected
  live_transition-Descends s (Event.session_started now) = ground arith
  live_transition-Descends s (Event.candidate_turn_received id text now) = ground arith
  live_transition-Descends s (Event.interviewer_reply_ready id output now) = ground arith
  live_transition-Descends s (Event.interviewer_failed id kind now) = ground arith
  live_transition-Descends s (Event.assessment_completed id output now) = ground arith
  live_transition-Descends s (Event.assessment_failed id kind now) = ground arith
  live_transition-Descends s (Event.timer_tick now) = ground arith
  live_transition-Descends s (Event.reconnected now) = grind (arith, pending_rank-le)
  live_transition-Descends s (Event.operator_abort reason now) = ground arith

  pub transition-Descends :
      (s : SessionState) (e : Event) → Descends s e (transition lib config s e)
  unfolding transition
  transition-Descends s e = ground (arith, live_transition-Descends s e)
