-- ===== src/Orchestrator/Replies.antt =====
-- Agent replies: late ones are ignored, a first failure is retried and a second one aborts.
use tech_screen_ai.Prelude.{
  ◌≡◌, ◌≢◌, refl, ap, ◌∙◌, ◌++◌, true, false, Option, none, some, List, [], ◌∷◌, arith, String,
  string_eq_iff,
}
use tech_screen_ai.Agents.Output.{InterviewerOutput}
use tech_screen_ai.Orchestrator.Budget.{answers_pending_command}
use tech_screen_ai.Orchestrator.Command.{
  Uuid, turn_id, DecisionReason, RunInterviewer, PendingCommand, Command,
}
use tech_screen_ai.Orchestrator.Config.{OrchestratorConfig}
use tech_screen_ai.Orchestrator.Event.{Event}
use tech_screen_ai.Orchestrator.Externals.{Externals}
use tech_screen_ai.Orchestrator.Handlers.{
  on_interviewer_reply, on_interviewer_failed, in_dialogue, on_reconnected,
}
use tech_screen_ai.Orchestrator.State.{
  Phase, Awaiting, AbortReason, Time, SessionState, Result, ok, err, Outcome, ◌>>=◌,
}
use tech_screen_ai.Orchestrator.Transition.{live_transition, transition, run}

-- No outstanding command has the id.
abbrev pub IsStale : SessionState → Uuid → Type 0
IsStale s id = (c : PendingCommand) → s.pending_command ≡ some c → turn_id c ≢ id

not_answering : (s : SessionState) (id : Uuid) → IsStale s id → answers_pending_command s id ≡ false
unfolding answers_pending_command
not_answering s id stale = go s.pending_command stale
  where
    go :
        (o : Option PendingCommand)
        → ((c : PendingCommand) → o ≡ some c → turn_id c ≢ id)
        → answers_pending_command (record s { pending_command = o }) id ≡ false
    go none h = refl
    go (some c) h = ground (arith, h c refl, string_eq_iff (turn_id c) id)

state_or : SessionState → Result SessionState → SessionState
state_or s (ok t) = t
state_or s (err e) = s

-- The state that a run ends in.
abbrev pub state_of : Result Outcome → Result SessionState
state_of (ok o) = ok o.0
state_of (err e) = err e

state_of-prefix :
    (cs : List Command) (r : Result Outcome)
    → state_of (r >>= λ l. ok (l.0, cs ++ l.1)) ≡ state_of r
state_of-prefix cs (ok o) = refl
state_of-prefix cs (err e) = refl

state_of-then_run :
    (s : SessionState) (r : Result Outcome) (f : SessionState → Result Outcome)
    → state_of r ≡ ok s
    → state_of (r >>= λ o. f o.0 >>= λ l. ok (l.0, o.1 ++ l.1)) ≡ state_of (f s)
unfolding state_or
state_of-then_run s (ok o) f h =
    state_of-prefix o.1 (f o.0) ∙ ap (λ t. state_of (f t)) (ap (state_or s) h)
state_of-then_run s (err e) f h = cc

module _ (lib : Externals) (config : OrchestratorConfig) (s : SessionState) where
  -- An interviewer reply or failure whose turn id is not that of the outstanding command changes
  -- nothing and issues nothing, in every phase.
  pub stale_ignored :
      (id : Uuid) (output : InterviewerOutput) (kind : String) (now : Time)
      → IsStale s id
      → (transition lib config s (Event.interviewer_reply_ready id output now) ≡ ok (s, []))
        × (transition lib config s (Event.interviewer_failed id kind now) ≡ ok (s, []))
  unfolding transition live_transition on_interviewer_reply on_interviewer_failed
  stale_ignored id output kind now stale =
      (ground (arith, not_answering s id stale), ground (arith, not_answering s id stale))

  -- In TECH or QA, while a run of the Interviewer is outstanding with no failure so far, two
  -- failures for it in a row re-issue it under its id as a retry, and then abort the session with
  -- fatal_agent_error, with exactly these commands.
  pub failure_ladder :
      (r : RunInterviewer) (kind kind' : String) (now now' : Time)
      → in_dialogue s.phase ≡ true
      → s.awaiting ≡ some Awaiting.interviewer
      → s.pending_command ≡ some (PendingCommand.run_interviewer r)
      → s.interviewer_failure_streak ≡ 0
      → let retry = PendingCommand.run_interviewer (record r { retry = true }) in
        run lib config s (
          Event.interviewer_failed r.turn_id kind now
          ∷ Event.interviewer_failed r.turn_id kind' now'
          ∷ [])
        ≡ ok (
          record s {
            interviewer_failure_streak = 1;
            phase = Phase.aborted;
            abort_reason = some AbortReason.fatal_agent_error;
            awaiting = none;
            pending_command = none;
          },
          Command.outbound retry
              ∷ Command.flag_turn_degraded r.turn_id kind
              ∷ Command.persist_state
              ∷ Command.record_decision DecisionReason.agent_failure
              ∷ Command.persist_state
              ∷ [],
        )
  unfolding run transition live_transition on_interviewer_failed
  failure_ladder r kind kind' now now' d a p k = ground (arith, string_eq_iff r.turn_id r.turn_id)

  reconnect_keeps : (now : Time) → state_of (transition lib config s (Event.reconnected now)) ≡ ok s
  unfolding transition live_transition on_reconnected
  reconnect_keeps now = ground arith

  -- A reconnection in front of any events does not change the state that they lead to.
  pub reconnect_transparent :
      (now : Time) (events : List Event)
      → state_of (run lib config s (Event.reconnected now ∷ events))
        ≡ state_of (run lib config s events)
  unfolding run
  reconnect_transparent now events =
      state_of-then_run s (transition lib config s (Event.reconnected now))
        (λ t. run lib config t events) (reconnect_keeps now)
