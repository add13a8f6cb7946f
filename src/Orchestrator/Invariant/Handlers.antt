-- ===== src/Orchestrator/Invariant/Handlers.antt =====
-- Each handler keeps the invariant and raises nothing.
use tech_screen_ai.Prelude.{arith, String, Bool}
use tech_screen_ai.Agents.Output.{InterviewerOutput, AssessorOutput}
use tech_screen_ai.Orchestrator.Command.{Uuid, DecisionReason}
use tech_screen_ai.Orchestrator.Config.{OrchestratorConfig}
use tech_screen_ai.Orchestrator.State.{AbortReason, SessionState}
use tech_screen_ai.Orchestrator.Moves.{abort}
use tech_screen_ai.Orchestrator.Handlers.{
  on_interviewer_reply, on_interviewer_failed, on_assessment_completed, on_assessment_failed,
  on_reconnected,
}
use tech_screen_ai.Orchestrator.Invariant.{IsSound}

module _ (config : OrchestratorConfig) (s : SessionState) (h : IsSound config s) where
  pub abort-IsSound :
      (reason : AbortReason) (decision : DecisionReason) (persist : Bool)
      → IsSound config (abort s reason decision persist).0
  unfolding abort
  abort-IsSound reason decision persist = ground arith

  pub on_interviewer_reply-IsSound :
      (id : Uuid) (output : InterviewerOutput)
      → IsSound config (on_interviewer_reply s id output config).0
  unfolding on_interviewer_reply
  on_interviewer_reply-IsSound id output = ground arith

  pub on_interviewer_failed-IsSound :
      (id : Uuid) (kind : String) → IsSound config (on_interviewer_failed s id kind).0
  unfolding on_interviewer_failed
  on_interviewer_failed-IsSound id kind = ground arith

  pub on_assessment_completed-IsSound :
      (id : Uuid) (output : AssessorOutput)
      → IsSound config (on_assessment_completed s id output config).0
  unfolding on_assessment_completed
  on_assessment_completed-IsSound id output = ground arith

  pub on_assessment_failed-IsSound : (id : Uuid) → IsSound config (on_assessment_failed s id).0
  unfolding on_assessment_failed
  on_assessment_failed-IsSound id = ground arith

  pub on_reconnected-IsSound : IsSound config (on_reconnected s).0
  unfolding on_reconnected
  on_reconnected-IsSound = ground arith
