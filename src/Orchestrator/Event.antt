-- ===== src/Orchestrator/Event.antt =====
-- The events of app/backend/orchestrator/state_machine.py. The last field of each is `now`.
use tech_screen_ai.Prelude.{String}
use tech_screen_ai.Agents.Output.{InterviewerOutput, AssessorOutput}
use tech_screen_ai.Orchestrator.Command.{Uuid}
use tech_screen_ai.Orchestrator.State.{AbortReason, Time}

-- The text or error kind stands before `now`, the turn id first.
pub data Event : Type 0 where
  session_started : Time → Event
  candidate_turn_received : Uuid → String → Time → Event
  interviewer_reply_ready : Uuid → InterviewerOutput → Time → Event
  interviewer_failed : Uuid → String → Time → Event
  assessment_completed : Uuid → AssessorOutput → Time → Event
  assessment_failed : Uuid → String → Time → Event
  timer_tick : Time → Event
  reconnected : Time → Event
  operator_abort : AbortReason → Time → Event
