-- ===== src/Orchestrator/Command.antt =====
-- The commands of app/backend/orchestrator/state_machine.py, and the words that they use.
use tech_screen_ai.Prelude.{String, Bool, Option}
use tech_screen_ai.Prelude.Dict.{Dict}
use tech_screen_ai.Json.{Json}
use tech_screen_ai.Agents.Output.{InterviewerMove}

-- A UUID, as its canonical text.
abbrev pub Uuid : Type 0
Uuid = String

abbrev pub opening_script_path : String
opening_script_path = "prompts/shared/candidate-facing/opening.md"

abbrev pub closing_script_path : String
closing_script_path = "prompts/shared/candidate-facing/closing.md"

pub data DecisionReason : Type 0 where
  plan_invalid agent_failure timeout operator completed : DecisionReason

pub data GapMarker : Type 0 where
  gap_not_assessable gap_budget_exhausted assessment_failed level_zero : GapMarker

abbrev pub MoveContext : Type 0
MoveContext = Dict String Json

pub record RunInterviewer : Type 0 where
  pub turn_id : Uuid
  pub move : InterviewerMove
  pub competency_node_id : Option String
  pub move_context : MoveContext
  pub retry : Bool

-- `deliver_utterance turn_id utterance`, and `emit_scripted_… turn_id script_path`
pub data PendingCommand : Type 0 where
  run_interviewer : RunInterviewer → PendingCommand
  deliver_utterance : Uuid → String → PendingCommand
  emit_scripted_opening : Uuid → String → PendingCommand
  emit_scripted_closing : Uuid → String → PendingCommand

-- The attribute `turn_id` of each class in the union.
abbrev pub turn_id : PendingCommand → Uuid
turn_id (PendingCommand.run_interviewer r) = r.turn_id
turn_id (PendingCommand.deliver_utterance t _) = t
turn_id (PendingCommand.emit_scripted_opening t _) = t
turn_id (PendingCommand.emit_scripted_closing t _) = t

-- `outbound` holds the four classes that `PendingCommand` joins.
pub data Command : Type 0 where
  outbound : PendingCommand → Command
  run_assessor : Uuid → String → Command
  flag_turn_degraded : Uuid → String → Command
  record_gap : String → GapMarker → Command
  record_decision : DecisionReason → Command
  end_session : Command
  persist_state : Command
  reissue_pending_command : PendingCommand → Command
