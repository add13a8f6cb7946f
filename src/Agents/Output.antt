-- ===== src/Agents/Output.antt =====
-- The typed outputs of app/backend/agents/interviewer.py and assessor.py.
use tech_screen_ai.Prelude.{ℕ, String, Bool, Option, List}

pub data InterviewerMove : Type 0 where
  ask_seed depth_probe acknowledge_and_transition redirect close_competency : InterviewerMove

pub record InterviewerOutput : Type 0 where
  pub utterance : String
  pub internal_move_executed : InterviewerMove

pub data RedFlagType : Type 0 where
  factually_wrong contradiction fabricated_technology likely_cheating red_flag_other : RedFlagType

-- `confidence` is a double of [0, 0.99], given by its bit pattern: on the non-negative doubles the
-- patterns have the order of the numbers, and only that order is used.
pub record AssessmentItem : Type 0 where
  pub rubric_node_id : String
  pub level : ℕ
  pub confidence : ℕ
  pub rationale_en : String
  pub evidence_spans : List String

pub record RedFlagItem : Type 0 where
  pub type : RedFlagType
  pub rubric_node_id : Option String
  pub description_en : String
  pub evidence_span : Option String

pub record AssessorOutput : Type 0 where
  pub turn_id : String
  pub session_id : String
  pub competency_focus : String
  pub assessments : List AssessmentItem
  pub red_flags : List RedFlagItem
  pub needs_manual_review : Bool
  pub manual_review_reason_en : Option String
