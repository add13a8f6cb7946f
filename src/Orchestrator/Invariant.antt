-- ===== src/Orchestrator/Invariant.antt =====
-- What every reachable session state satisfies: each phase has the plan, the clocks and the
-- outstanding command that its handlers rely on.
pub mod Runs
pub mod Steps
pub mod Handlers
use tech_screen_ai.Prelude.{ltb, ℕ, ◌≤◌, ◌<◌, ◌≡◌, true, Option, none, some, length, is_some}
use tech_screen_ai.Agents.Output.{InterviewerMove}
use tech_screen_ai.Orchestrator.Runs.{Reaches}
use tech_screen_ai.Orchestrator.Command.{PendingCommand}
use tech_screen_ai.Orchestrator.Config.{OrchestratorConfig}
use tech_screen_ai.Orchestrator.Plan.{PlanSnapshot, IsPlan, timedelta_bound}
use tech_screen_ai.Orchestrator.State.{
  Phase, Awaiting, AbortReason, TechState, SessionState, Result, ok, err, Outcome,
}

abbrev pub HasPlan : Option PlanSnapshot → Type 0
HasPlan none = ⊥
HasPlan (some p) = IsPlan p

-- The current competency is one of the plan's.
abbrev pub OnCompetency : Option PlanSnapshot → ℕ → Type 0
OnCompetency none index = ⊥
OnCompetency (some p) index = IsPlan p × (index < length p.competencies)

-- In TECH and Q&A: an issued move waits for the interviewer, a delivered one for the candidate.
abbrev pub InDialogue : Option Awaiting → Option PendingCommand → Option InterviewerMove → Type 0
InDialogue (some Awaiting.interviewer) (some (PendingCommand.run_interviewer r)) issued =
    issued ≡ some r.move
InDialogue (some Awaiting.candidate) (some (PendingCommand.deliver_utterance _ _)) issued =
    is_some issued ≡ true
InDialogue _ _ _ = ⊥

-- In INTRO and CLOSE a script is outstanding.
abbrev pub IsOpening : Option Awaiting → Option PendingCommand → Type 0
IsOpening (some Awaiting.interviewer) (some (PendingCommand.emit_scripted_opening _ _)) = Unit
IsOpening _ _ = ⊥

abbrev pub IsClosing : Option Awaiting → Option PendingCommand → Type 0
IsClosing (some Awaiting.interviewer) (some (PendingCommand.emit_scripted_closing _ _)) = Unit
IsClosing _ _ = ⊥

-- Nothing is outstanding.
abbrev pub IsIdle : Option Awaiting → Option PendingCommand → Type 0
IsIdle none none = Unit
IsIdle _ _ = ⊥

-- What each phase guarantees.
abbrev pub PhaseOk : Phase → SessionState → Type 0
PhaseOk Phase.created s =
    (s.plan ≡ none) × IsIdle s.awaiting s.pending_command × (s.abort_reason ≡ none)
PhaseOk Phase.intro s =
    HasPlan s.plan × IsOpening s.awaiting s.pending_command × (s.abort_reason ≡ none)
PhaseOk Phase.tech s =
    OnCompetency s.plan s.tech.competency_index
    × (is_some s.tech.competency_started_at ≡ true)
    × InDialogue s.awaiting s.pending_command s.last_issued_move
    × (s.abort_reason ≡ none)
PhaseOk Phase.qa s =
    HasPlan s.plan
    × (is_some s.qa_started_at ≡ true)
    × InDialogue s.awaiting s.pending_command s.last_issued_move
    × (s.abort_reason ≡ none)
PhaseOk Phase.close s =
    HasPlan s.plan × IsClosing s.awaiting s.pending_command × (s.abort_reason ≡ none)
PhaseOk Phase.completed s =
    HasPlan s.plan × IsIdle s.awaiting s.pending_command × (s.abort_reason ≡ none)
PhaseOk Phase.aborted s = IsIdle s.awaiting s.pending_command × (is_some s.abort_reason ≡ true)

pub record IsSound (config : OrchestratorConfig) (s : SessionState) : Type 0 where
  pub phase_ok : PhaseOk s.phase s
  pub streak : s.interviewer_failure_streak ≤ 1
  pub timeout : ltb config.timing.candidate_timeout_minutes timedelta_bound ≡ true
  pub probes : s.tech.probes_used ≤ config.adjudication.max_probes_per_competency

-- A transition that returns a sound state.
abbrev pub Keeps : OrchestratorConfig → Result Outcome → Type 0
Keeps config = Reaches (IsSound config)
