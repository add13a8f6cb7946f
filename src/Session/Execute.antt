-- ===== src/Session/Execute.antt =====
-- The commands of one transition, carried out by app/backend/services/dev_session.py.
use tech_screen_ai.Prelude.{String, Bool, true, false, Option, none, some, List, [], ◌∷◌, ◌++◌}
use tech_screen_ai.Agents.Call.{TurnResult, WrapperError}
use tech_screen_ai.Agents.Interviewer.{run_interviewer_turn}
use tech_screen_ai.Agents.Output.{InterviewerOutput, AssessorOutput}
use tech_screen_ai.Orchestrator.Command.{
  Uuid, DecisionReason, RunInterviewer, PendingCommand, Command,
}
use tech_screen_ai.Orchestrator.Event.{Event}
use tech_screen_ai.Orchestrator.State.{AbortReason, Time}
use tech_screen_ai.Session.Inputs.{interviewer_inputs, assessor_inputs, script_variables}
use tech_screen_ai.Session.Working.{Working, TranscriptRole, append}
use tech_screen_ai.Session.World.{
  Wiring, AssessorTask, ShellError, Reply, M, ◌>>=◌, ◌>>◌, pure, raise, ask, ask_with,
}

-- `type(exc).__name__`
abbrev pub error_name : WrapperError → String
error_name WrapperError.config_error = "ModelCallConfigError"
error_name WrapperError.timeout = "VertexTimeoutError"
error_name WrapperError.upstream_unavailable = "VertexUpstreamUnavailableError"
error_name WrapperError.budget_exceeded = "SessionBudgetExceeded"
error_name WrapperError.trace_write_error = "TraceWriteError"
error_name (WrapperError.schema_error _) = "VertexSchemaError"

-- What a turn of an agent comes to: an event, once it has a time, or an exception that no handler
-- takes.
pub data TurnAnswer : Type 0 where
  happens : (Time → Event) → TurnAnswer
  escapes : ShellError → TurnAnswer

unfoldable pub interviewer_event : Uuid → TurnResult InterviewerOutput → TurnAnswer
interviewer_event id (TurnResult.output output) =
    TurnAnswer.happens (Event.interviewer_reply_ready id output)
interviewer_event id (TurnResult.output_invalid _ _) =
    TurnAnswer.happens (Event.interviewer_failed id "interviewer_output_invalid")
interviewer_event id (TurnResult.wrapper_error e) =
    TurnAnswer.happens (Event.interviewer_failed id (error_name e))
interviewer_event id TurnResult.request_invalid = TurnAnswer.escapes ShellError.request_invalid
interviewer_event id TurnResult.crashed = TurnAnswer.escapes ShellError.call_crashed

unfoldable pub assessor_event : Uuid → TurnResult AssessorOutput → TurnAnswer
assessor_event id (TurnResult.output output) =
    TurnAnswer.happens (Event.assessment_completed id output)
assessor_event id (TurnResult.output_invalid _ _) =
    TurnAnswer.happens (Event.assessment_failed id "assessor_output_invalid")
assessor_event id (TurnResult.wrapper_error e) =
    TurnAnswer.happens (Event.assessment_failed id (error_name e))
assessor_event id TurnResult.request_invalid = TurnAnswer.escapes ShellError.request_invalid
assessor_event id TurnResult.crashed = TurnAnswer.escapes ShellError.call_crashed

-- The `reason` column: the literals of `DecisionReason` and of `abort_reason`.
abbrev pub decision_text : DecisionReason → String
decision_text DecisionReason.plan_invalid = "plan_invalid"
decision_text DecisionReason.agent_failure = "agent_failure"
decision_text DecisionReason.timeout = "timeout"
decision_text DecisionReason.operator = "operator"
decision_text DecisionReason.completed = "completed"

abbrev pub abort_text : AbortReason → String
abort_text AbortReason.candidate_timeout = "candidate_timeout"
abort_text AbortReason.cost_ceiling = "cost_ceiling"
abort_text AbortReason.operator_abort = "operator_abort"
abort_text AbortReason.fatal_agent_error = "fatal_agent_error"

abbrev pub recorded_reason : DecisionReason → Option AbortReason → String
recorded_reason DecisionReason.operator (some reason) = abort_text reason
recorded_reason reason _ = decision_text reason

module _ {V : Type 0} (wiring : Wiring V) where
  -- An operator's decision is recorded under the state's own abort reason.
  unfoldable pub record_decision : Working → DecisionReason → M V (Unit {0})
  record_decision working reason w =
      let row : Uuid × String =
        (working.session_id, recorded_reason reason working.state.abort_reason) in
      let tables = w.tables in
      (
        Reply.done tt,
        record w { tables = record tables { decisions = tables.decisions ++ row ∷ [] } },
      )

  -- The event of a turn of an agent, with the time; the exception that is not handled leaves.
  abbrev pub timed : TurnAnswer → M V Event
  timed (TurnAnswer.escapes e) = raise e
  timed (TurnAnswer.happens event_at) = do now ← ask wiring.now; pure (event_at now)

  -- At `true` the guard has raised `SessionBudgetExceeded`.
  unfoldable pub speak : Working → RunInterviewer → Bool → M V (List Event)
  unfolding interviewer_inputs interviewer_event
  speak working command true = do
    now ← ask wiring.now
    pure (Event.operator_abort AbortReason.cost_ceiling now ∷ [])
  speak working command false = do
    result ← ask_with (λ tables.
        run_interviewer_turn wiring.interviewer (λ request. wiring.call_model request tables)
          (interviewer_inputs wiring working command))
    event ← timed (interviewer_event command.turn_id result)
    pure (event ∷ [])

  unfoldable pub run_interviewer : Working → RunInterviewer → M V (List Event)
  unfolding speak
  run_interviewer working command = do
    exceeded ← ask_with (wiring.exceeds_budget working.session_id)
    speak working command exceeded

  unfoldable pub schedule_assessor : Working → Uuid → String → M V (Unit {0})
  unfolding assessor_inputs
  schedule_assessor working id focus w =
      let task : AssessorTask = record {
        session_id = working.session_id;
        turn_id = id;
        inputs = assessor_inputs working id focus;
      } in
      (Reply.done tt, record w { tasks = w.tasks ++ task ∷ [] })

  unfoldable pub rendered : Option String → M V String
  rendered none = raise ShellError.script_unreadable
  rendered (some text) = pure text

  unfoldable pub render : Working → String → M V String
  unfolding rendered
  render working path = rendered (wiring.render_script path (script_variables working))

  -- The four commands that the machine may have outstanding.
  unfoldable pub execute_pending : Working → PendingCommand → M V (Working × List Event)
  unfolding run_interviewer render append
  execute_pending working (PendingCommand.run_interviewer command) = do
    events ← run_interviewer working command
    pure (working, events)
  execute_pending working (PendingCommand.deliver_utterance id utterance) =
      pure (append working TranscriptRole.interviewer utterance (some id), [])
  execute_pending working (PendingCommand.emit_scripted_opening id path) = do
    text ← render working path
    pure (append working TranscriptRole.system text (some id), [])
  execute_pending working (PendingCommand.emit_scripted_closing id path) = do
    text ← render working path
    now ← ask wiring.now
    pure (append working TranscriptRole.system text (some id), Event.timer_tick now ∷ [])

  unfoldable pub execute_one : Working → Command → M V (Working × List Event)
  unfolding execute_pending schedule_assessor record_decision
  execute_one working (Command.outbound command) = execute_pending working command
  execute_one working (Command.reissue_pending_command command) = execute_pending working command
  execute_one working (Command.run_assessor id focus) = do
    schedule_assessor working id focus
    pure (working, [])
  execute_one working (Command.record_decision reason) = do
    record_decision working reason
    pure (working, [])
  execute_one working _ = pure (working, [])

  -- In order; the events of each command follow those of the commands before it.
  unfoldable pub execute : Working → List Command → M V (Working × List Event)
  execute working [] = pure (working, [])
  execute working (command ∷ commands) = do
    (after, events) ← execute_one working command
    (last, later) ← execute after commands
    pure (last, events ++ later)
