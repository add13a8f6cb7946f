-- ===== src/Orchestrator/State.antt =====
-- The session state of app/backend/orchestrator/state_machine.py, and how a transition ends.
use tech_screen_ai.Prelude.{ℕ, String, Bool, true, false, Option, none, List, []}
use tech_screen_ai.Prelude.Dict.{Dict}
use tech_screen_ai.Json.{Fields}
use tech_screen_ai.Agents.Output.{InterviewerMove, RedFlagType}
use tech_screen_ai.Orchestrator.Command.{Uuid, PendingCommand, Command}
use tech_screen_ai.Orchestrator.Plan.{PlanSnapshot}
use tech_screen_ai.Orchestrator.Config.{OrchestratorConfig}

pub data Phase : Type 0 where
  created intro tech qa close completed aborted : Phase

-- `phase in TERMINAL_PHASES`
abbrev pub is_terminal : Phase → Bool
is_terminal Phase.completed = true
is_terminal Phase.aborted = true
is_terminal _ = false

pub data Awaiting : Type 0 where
  interviewer candidate : Awaiting

pub data AbortReason : Type 0 where
  candidate_timeout cost_ceiling operator_abort fatal_agent_error : AbortReason

pub record CoverageCell : Type 0 where
  pub best_level : Option ℕ
  pub best_confidence : Option ℕ
  pub latest_level : Option ℕ
  pub latest_confidence : Option ℕ
  pub gap_not_assessable : Bool
  pub assessment_failed : Bool
  pub gap_budget_exhausted : Bool
  pub needs_manual_review : Bool
  pub red_flags : List RedFlagType

-- `CoverageCell()`
abbrev pub empty_cell : CoverageCell
empty_cell = record {
  best_level = none;
  best_confidence = none;
  latest_level = none;
  latest_confidence = none;
  gap_not_assessable = false;
  assessment_failed = false;
  gap_budget_exhausted = false;
  needs_manual_review = false;
  red_flags = [];
}

-- A point in time, in microseconds since a fixed epoch.
abbrev pub Time : Type 0
Time = ℕ

abbrev pub Coverage : Type 0
Coverage = Dict String CoverageCell

pub record TechState : Type 0 where
  pub competency_index : ℕ
  pub seed_index : ℕ
  pub probes_used : ℕ
  pub drift_count : ℕ
  pub competency_started_at : Option Time
  pub coverage : Coverage
  pub pending_assessments : List Uuid
  pub assessment_focus : Dict Uuid String

-- `TechState()`
abbrev pub initial_tech : TechState
initial_tech = record {
  competency_index = 0;
  seed_index = 0;
  probes_used = 0;
  drift_count = 0;
  competency_started_at = none;
  coverage = [];
  pending_assessments = [];
  assessment_focus = [];
}

pub record SessionState : Type 0 where
  pub state_schema_version : ℕ
  pub session_id : Uuid
  pub phase : Phase
  pub awaiting : Option Awaiting
  pub last_issued_move : Option InterviewerMove
  pub plan_input : Fields
  pub plan : Option PlanSnapshot
  pub tech : TechState
  pub abort_reason : Option AbortReason
  pub flagged_for_review : Bool
  pub needs_manual_review : Bool
  pub cheat_flag_count : ℕ
  pub interviewer_failure_streak : ℕ
  pub turn_seq : ℕ
  pub session_started_at : Option Time
  pub qa_started_at : Option Time
  pub last_candidate_activity : Option Time
  pub pending_command : Option PendingCommand

unfoldable pub initial_state : Uuid → Fields → OrchestratorConfig → SessionState
initial_state session_id plan_input config = record {
  state_schema_version = config.state_schema_version;
  session_id = session_id;
  phase = Phase.created;
  awaiting = none;
  last_issued_move = none;
  plan_input = plan_input;
  plan = none;
  tech = initial_tech;
  abort_reason = none;
  flagged_for_review = false;
  needs_manual_review = false;
  cheat_flag_count = 0;
  interviewer_failure_streak = 0;
  turn_seq = 0;
  session_started_at = none;
  qa_started_at = none;
  last_candidate_activity = none;
  pending_command = none;
}

-- `OrchestratorStateError`, raised in two places, Python's `IndexError` of `seq[0]`, and its
-- `OverflowError` of `timedelta(minutes=…)` and `float(…)`.
pub data StateError : Type 0 where
  no_plan : Phase → StateError
  outside_plan : ℕ → StateError
  index_error overflow : StateError

pub data Result {ℓ} (A : Type ℓ) : Type ℓ where
  ok : A → Result A
  err : StateError → Result A

infixl 5 ◌>>=◌
abbrev pub ◌>>=◌ {ℓ κ} : {A : Type ℓ} {B : Type κ} → Result A → (A → Result B) → Result B
ok a >>= f = f a
err e >>= f = err e

-- `TransitionResult`: the new state and the commands, in order.
abbrev pub Outcome : Type 0
Outcome = SessionState × List Command
