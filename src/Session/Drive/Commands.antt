-- ===== src/Session/Drive/Commands.antt =====
-- Executing commands returns, leaves the state and the tables of the session alone, lets the chat
-- log grow, and gives events that are no dearer than the commands.
use tech_screen_ai.Prelude.{
  ℕ, String, Bool, true, false, ◌≤◌, ◌≡◌, refl, sym, ap, Option, none, some, is_some, List, [], ◌∷◌,
  length, arith,
}
use mathlib.Core.List.{append-nil}
use tech_screen_ai.Agents.Call.{TurnResult, is_request}
use tech_screen_ai.Agents.Interviewer.{interviewer_request, speak_once, run_interviewer_turn}
use tech_screen_ai.Agents.Output.{InterviewerOutput}
use tech_screen_ai.Agents.Retry.{
  request_invalid-is_request, crashed-attempt, validate_result-crashed,
}
use tech_screen_ai.Orchestrator.Command.{Uuid, PendingCommand, Command, RunInterviewer}
use tech_screen_ai.Orchestrator.Event.{Event}
use tech_screen_ai.Session.Drive.Rank.{
  rank, pending_rank, command_rank, commands_rank, asks, command_asks, count_asks, failure_rank,
  tick_rank,
}
use tech_screen_ai.Session.Drive.Yields.{IsRefusal, Yields, Yields-next}
use tech_screen_ai.Session.Drive.Ran.{Ran, RanAs, Ran-then, IsReadable, events_rank}
use tech_screen_ai.Session.Execute.{
  execute, execute_one, execute_pending, run_interviewer, speak, render, rendered,
  interviewer_event, timed, schedule_assessor, record_decision,
}
use tech_screen_ai.Session.Inputs.{interviewer_inputs, script_variables}
use tech_screen_ai.Session.Working.{Working, TranscriptRole, append}
use tech_screen_ai.Session.World.{Wiring, World, Reply, ShellError, ◌>>=◌, pure}

module _ {V : Type 0} (wiring : Wiring V) where
  -- One event that is no dearer than a failure, in a world with the same tables.
  one_event :
      (working : Working) (event : Event) (w v : World V)
      → v.tables ≡ w.tables
      → rank working.state event ≤ failure_rank working.state.interviewer_failure_streak
      → Ran
          (failure_rank working.state.interviewer_failure_streak)
          1
          working
          w
          working
          (event ∷ [])
          v
  one_event working event w v e cheap = record {
    state = refl;
    session_id = refl;
    growth = [];
    transcript = sym (append-nil _);
    sessions = ap (λ t. t.sessions) e;
    transcripts = ap (λ t. t.transcripts) e;
    cheap = omega (arith, cheap);
    few = omega arith;
  }

  -- What follows a turn of the Interviewer.
  abbrev answered : Uuid → TurnResult InterviewerOutput → World V → Reply (List Event) × World V
  unfolding interviewer_event
  answered id result = do event ← timed wiring (interviewer_event id result); pure (event ∷ [])

  answered-Yields :
      (working : Working) (id : Uuid) (result : TurnResult InterviewerOutput) (w v : World V)
      → v.tables ≡ w.tables
      → (result ≡ TurnResult.request_invalid → IsRefusal wiring ShellError.request_invalid)
      → (result ≡ TurnResult.crashed → IsRefusal wiring ShellError.call_crashed)
      → Yields wiring
          (λ events w'.
            Ran
              (failure_rank working.state.interviewer_failure_streak)
              1
              working
              w
              working
              events
              w')
          (answered id result v)
  unfolding interviewer_event
  answered-Yields working id (TurnResult.output output) w v e h k =
      one_event working _ w _ e (ground arith)
  answered-Yields working id (TurnResult.output_invalid m n) w v e h k =
      one_event working _ w _ e (ground arith)
  answered-Yields working id (TurnResult.wrapper_error x) w v e h k =
      one_event working _ w _ e (ground arith)
  answered-Yields working id TurnResult.request_invalid w v e h k = h refl
  answered-Yields working id TurnResult.crashed w v e h k = k refl

  speak-Yields :
      (working : Working) (c : RunInterviewer) (exceeded : Bool) (w v : World V)
      → v.tables ≡ w.tables
      → Yields wiring
          (λ events w'.
            Ran
              (failure_rank working.state.interviewer_failure_streak)
              1
              working
              w
              working
              events
              w')
          (speak wiring working c exceeded v)
  unfolding speak run_interviewer_turn speak_once interviewer_event
  speak-Yields working c true w v e = record {
    state = refl;
    session_id = refl;
    growth = [];
    transcript = sym (append-nil _);
    sessions = ap (λ t. t.sessions) e;
    transcripts = ap (λ t. t.transcripts) e;
    cheap = ground arith;
    few = omega arith;
  }
  speak-Yields working c false w v e =
      let inputs = interviewer_inputs wiring working c in
      let valid = is_request (interviewer_request wiring.interviewer inputs) in
      let turn =
        run_interviewer_turn wiring.interviewer (λ request. wiring.call_model request v.tables)
          inputs v.outside in
      answered-Yields working c.turn_id turn.0 w (record v { outside = turn.1 }) e
        (λ refused. (inputs, request_invalid-is_request valid _ v.outside refused))
        λ broken.
          let (u, crash) =
            crashed-attempt valid
              (speak_once wiring.interviewer (λ request. wiring.call_model request v.tables) inputs)
              v.outside broken in
          (
            interviewer_request wiring.interviewer inputs,
            v.tables,
            u,
            validate_result-crashed wiring.interviewer _ crash,
          )

  run_interviewer-Yields :
      (working : Working) (c : RunInterviewer) (w : World V)
      → Yields wiring
          (λ events w'.
            Ran
              (failure_rank working.state.interviewer_failure_streak)
              1
              working
              w
              working
              events
              w')
          (run_interviewer wiring working c w)
  unfolding run_interviewer
  run_interviewer-Yields working c w = speak-Yields working c _ w _ refl

  -- A text appended to the chat log, and at most one event.
  grown :
      (working : Working) (role : TranscriptRole) (text : String) (id : Option Uuid)
      (events : List Event) (cost asked : ℕ) (w v : World V)
      → v.tables ≡ w.tables
      → events_rank working.state events ≤ cost
      → length events ≤ asked
      → Ran cost asked working w (append working role text id) events v
  unfolding append
  grown working role text id events cost asked w v e cheap few = record {
    state = refl;
    session_id = refl;
    growth = _;
    transcript = refl;
    sessions = ap (λ t. t.sessions) e;
    transcripts = ap (λ t. t.transcripts) e;
    cheap = cheap;
    few = few;
  }

  -- A command that does not touch the session.
  quiet :
      (working : Working) (w v : World V)
      → v.tables.sessions ≡ w.tables.sessions
      → v.tables.transcripts ≡ w.tables.transcripts
      → Ran 0 0 working w working [] v
  quiet working w v sessions transcripts = record {
    state = refl;
    session_id = refl;
    growth = [];
    transcript = sym (append-nil _);
    sessions = sessions;
    transcripts = transcripts;
    cheap = omega arith;
    few = omega arith;
  }

  rendered-Yields :
      (text : Option String) (w : World V)
      → is_some text ≡ true
      → Yields wiring (λ _ v. v ≡ w) (rendered wiring text w)
  unfolding rendered
  rendered-Yields none w h = absurd (ground arith)
  rendered-Yields (some text) w h = refl

  execute_pending-Yields :
      (working : Working) (c : PendingCommand) (w : World V)
      → IsReadable wiring
      → Yields wiring
          (RanAs (pending_rank working.state c) (asks c) working w)
          (execute_pending wiring working c w)
  unfolding execute_pending render
  execute_pending-Yields working (PendingCommand.run_interviewer c) w h =
      Yields-next wiring _ _ _ (run_interviewer wiring working c w)
        (run_interviewer-Yields working c w) (λ events v ran. ran)
  execute_pending-Yields working (PendingCommand.deliver_utterance id text) w h =
      grown working TranscriptRole.interviewer text (some id) [] 0 0 w w refl (omega arith)
        (omega arith)
  execute_pending-Yields working (PendingCommand.emit_scripted_opening id path) w h =
      let found = wiring.render_script path (script_variables working) in
      Yields-next wiring _ _ _ (rendered wiring found w)
        (rendered-Yields found w (h path (script_variables working)))
        λ text v e.
          grown working TranscriptRole.system text (some id) [] 0 0 w v (ap (λ u. u.tables) e)
            (omega arith) (omega arith)
  execute_pending-Yields working (PendingCommand.emit_scripted_closing id path) w h =
      let found = wiring.render_script path (script_variables working) in
      Yields-next wiring _ _ _ (rendered wiring found w)
        (rendered-Yields found w (h path (script_variables working)))
        λ text v e.
          grown working TranscriptRole.system text (some id) (Event.timer_tick _ ∷ [])
            (tick_rank working.state.phase) 1 w _ (ap (λ u. u.tables) e) (omega arith) (omega arith)

  execute_one-Yields :
      (working : Working) (c : Command) (w : World V)
      → IsReadable wiring
      → Yields wiring
          (RanAs (command_rank working.state c) (command_asks c) working w)
          (execute_one wiring working c w)
  unfolding execute_one schedule_assessor record_decision
  execute_one-Yields working (Command.outbound c) w h = execute_pending-Yields working c w h
  execute_one-Yields working (Command.reissue_pending_command c) w h =
      execute_pending-Yields working c w h
  execute_one-Yields working c w h = quiet working w _ refl refl

  pub execute-Yields :
      (working : Working) (cs : List Command) (w : World V)
      → IsReadable wiring
      → Yields wiring
          (RanAs (commands_rank working.state cs) (count_asks cs) working w)
          (execute wiring working cs w)
  unfolding execute
  execute-Yields working [] w h = quiet working w w refl refl
  execute-Yields working (c ∷ cs) w h =
      Yields-next wiring _ _ _ (execute_one wiring working c w) (execute_one-Yields working c w h)
        λ (mid, es) v p.
          Yields-next wiring _ _ _ (execute wiring mid cs v) (execute-Yields mid cs v h)
            λ (after, fs) u q. Ran-then p q (ap (λ s. commands_rank s cs) p.state)
