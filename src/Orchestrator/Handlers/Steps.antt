-- ===== src/Orchestrator/Handlers/Steps.antt =====
-- The handlers of app/backend/orchestrator/state_machine.py that move a session through its
-- phases: the start, a candidate turn outside TECH, a tick of the timer.
use tech_screen_ai.Prelude.{◌+◌, Bool, true, false, none, some, [], ◌∷◌, if◌then◌else◌, string_eq}
use tech_screen_ai.Json.{Json}
use tech_screen_ai.Agents.Output.{InterviewerMove}
use tech_screen_ai.Orchestrator.Budget.{
  candidate_timed_out, session_budget_exhausted, qa_budget_exhausted,
}
use tech_screen_ai.Orchestrator.Command.{
  Uuid, DecisionReason, PendingCommand, Command, opening_script_path,
}
use tech_screen_ai.Orchestrator.Config.{OrchestratorConfig}
use tech_screen_ai.Orchestrator.Context.{first, first_seed_context, qa_context}
use tech_screen_ai.Orchestrator.Externals.{Externals}
use tech_screen_ai.Orchestrator.Moves.{
  require_plan, next_turn_id, issue_interviewer, abort, complete, enter_close, enter_qa, ignore,
}
use tech_screen_ai.Orchestrator.Plan.{validate_plan}
use tech_screen_ai.Orchestrator.State.{
  Phase, Awaiting, AbortReason, Time, TechState, SessionState, Result, ok, ◌>>=◌, Outcome,
}
use tech_screen_ai.Orchestrator.TechTurn.{on_tech_candidate_turn}
use tech_screen_ai.Orchestrator.Handlers.Guards.{awaits_candidate, is_qa, is_tech, is_close}

abbrev pub enter_first : TechState → Time → TechState
enter_first tech now = record tech {
  competency_index = 0;
  seed_index = 0;
  probes_used = 0;
  competency_started_at = some now;
}

-- `condition and test`, whose test is evaluated only where the condition holds.
abbrev pub and_also : Bool → Result Bool → Result Bool
and_also true test = test
and_also false test = ok false

module _ (lib : Externals) where
  unfoldable pub on_session_started : SessionState → Time → Outcome
  unfolding abort next_turn_id validate_plan
  on_session_started state now =
      elim (validate_plan lib.model_validate (Json.obj state.plan_input)) [
        | none ↦ abort state AbortReason.operator_abort DecisionReason.plan_invalid false
        | some plan ↦
            let opening =
              PendingCommand.emit_scripted_opening (next_turn_id lib state) opening_script_path in
            (
              record state {
                phase = Phase.intro;
                awaiting = some Awaiting.interviewer;
                plan = some plan;
                session_started_at = some now;
                last_candidate_activity = some now;
                turn_seq = state.turn_seq + 1;
                pending_command = some opening;
              },
              Command.outbound opening ∷ Command.persist_state ∷ [],
            )
      ]

  unfoldable pub on_intro_candidate_turn : SessionState → Time → Result Outcome
  unfolding require_plan issue_interviewer first_seed_context
  on_intro_candidate_turn state now = do
    plan ← require_plan state
    c ← first plan.competencies
    context ← first_seed_context c
    let entered = record state {
      phase = Phase.tech;
      last_candidate_activity = some now;
      tech = enter_first state.tech now;
    }
    let (new_state, command) =
        issue_interviewer lib entered InterviewerMove.ask_seed (some c.node_id) context
    ok (new_state, command ∷ Command.persist_state ∷ [])

  unfoldable pub on_qa_candidate_turn : SessionState → Time → Result Outcome
  unfolding qa_budget_exhausted enter_close require_plan issue_interviewer qa_context
  on_qa_candidate_turn state now =
      let heard = record state { last_candidate_activity = some now } in
      qa_budget_exhausted state now >>= λ over.
      if over
      then ok (enter_close lib heard)
      else (require_plan state >>= λ plan.
          let (new_state, interviewer) =
            issue_interviewer lib heard InterviewerMove.acknowledge_and_transition none
              (qa_context plan) in
          ok (new_state, interviewer ∷ []))

  unfoldable pub on_candidate_turn :
      SessionState → Uuid → Time → OrchestratorConfig → Result Outcome
  unfolding ignore
  on_candidate_turn state id now config = elim state.phase [
    | Phase.intro ↦ on_intro_candidate_turn state now
    | Phase.tech ↦
        if awaits_candidate state.awaiting
        then on_tech_candidate_turn lib state id now config
        else ok (ignore state)
    | Phase.qa ↦ on_qa_candidate_turn state now
    | _ ↦ ok (ignore state)
  ]

  unfoldable pub on_timer_tick : SessionState → Time → OrchestratorConfig → Result Outcome
  unfolding candidate_timed_out session_budget_exhausted qa_budget_exhausted abort enter_qa
      enter_close complete ignore
  on_timer_tick state now config = candidate_timed_out state now config >>= λ silent.
      if silent
      then ok (abort state AbortReason.candidate_timeout DecisionReason.timeout true)
      else (and_also (is_tech state.phase) (session_budget_exhausted state now) >>= λ spent.
          if spent
          then (enter_qa lib state now >>= λ entered. ok (entered.0, entered.1 ∷ []))
          else (and_also (is_qa state.phase) (session_budget_exhausted state now) >>= λ closes.
              if closes
              then ok (enter_close lib state)
              else (and_also (is_qa state.phase) (qa_budget_exhausted state now) >>= λ answered.
                  if answered
                  then ok (enter_close lib state)
                  else if is_close state.phase
                  then ok (complete state)
                  else ok (ignore state))))
