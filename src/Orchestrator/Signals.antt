-- ===== src/Orchestrator/Signals.antt =====
-- Review signals do not route: what is flagged changes no phase, no move and no command.
use tech_screen_ai.Prelude.{◌≡◌, refl, sym, ap, ◌∙◌, false, List, [], ◌∷◌, ◌++◌, arith}
use tech_screen_ai.Orchestrator.Config.{OrchestratorConfig}
use tech_screen_ai.Orchestrator.Event.{Event}
use tech_screen_ai.Orchestrator.Externals.{Externals}
use tech_screen_ai.Orchestrator.Command.{Command, Uuid}
use tech_screen_ai.Orchestrator.Moves.{next_turn_id}
use tech_screen_ai.Orchestrator.Handlers.{
  on_session_started, on_candidate_turn, on_intro_candidate_turn, on_qa_candidate_turn,
  on_timer_tick, on_interviewer_reply, on_interviewer_failed, on_assessment_completed,
  on_assessment_failed, on_reconnected,
}
use tech_screen_ai.Orchestrator.State.{SessionState, Time, Result, ok, err, Outcome, ◌>>=◌}
use tech_screen_ai.Orchestrator.TechTurn.{on_tech_candidate_turn, leave_competency, route}
use tech_screen_ai.Orchestrator.Transition.{live_transition, transition, run}

-- The state without its session-level review signals.
abbrev pub strip : SessionState → SessionState
strip s = record s { flagged_for_review = false; needs_manual_review = false; cheat_flag_count = 0 }

abbrev pub stripped : Result Outcome → Result Outcome
stripped (ok o) = ok (strip o.0, o.1)
stripped (err e) = err e

abbrev prefixed : List Command → Result Outcome → Result Outcome
prefixed cs r = r >>= λ l. ok (l.0, cs ++ l.1)

-- A returned outcome, and a given one instead of an error.
abbrev outcome_or : Outcome → Result Outcome → Outcome
outcome_or o (ok p) = p
outcome_or o (err e) = o

stripped-prefixed :
    (cs : List Command) (r : Result Outcome) → stripped (prefixed cs r) ≡ prefixed cs (stripped r)
stripped-prefixed cs (ok o) = refl
stripped-prefixed cs (err e) = refl

module _ (lib : Externals) (config : OrchestratorConfig) where
  on_tech_candidate_turn-strip :
      (s : SessionState) (id : Uuid) (now : Time)
      → stripped (on_tech_candidate_turn lib s id now config)
        ≡ stripped (on_tech_candidate_turn lib (strip s) id now config)
  unfolding on_tech_candidate_turn leave_competency route next_turn_id
  on_tech_candidate_turn-strip s id now = ground arith

  live_transition-strip :
      (s : SessionState) (e : Event)
      → stripped (live_transition lib config s e)
        ≡ stripped (live_transition lib config (strip s) e)
  unfolding live_transition on_session_started on_candidate_turn on_intro_candidate_turn
      on_qa_candidate_turn on_timer_tick on_interviewer_reply on_interviewer_failed
      on_assessment_completed on_assessment_failed on_reconnected next_turn_id
  live_transition-strip s (Event.session_started now) = ground arith
  live_transition-strip s (Event.candidate_turn_received id text now) =
      ground (arith, on_tech_candidate_turn-strip s id now)
  live_transition-strip s (Event.interviewer_reply_ready id output now) = ground arith
  live_transition-strip s (Event.interviewer_failed id kind now) = ground arith
  live_transition-strip s (Event.assessment_completed id output now) = ground arith
  live_transition-strip s (Event.assessment_failed id kind now) = ground arith
  live_transition-strip s (Event.timer_tick now) = ground arith
  live_transition-strip s (Event.reconnected now) = ground arith
  live_transition-strip s (Event.operator_abort reason now) = ground arith

  transition-strip :
      (s : SessionState) (e : Event)
      → stripped (transition lib config s e) ≡ stripped (transition lib config (strip s) e)
  unfolding transition
  transition-strip s e = ground (arith, live_transition-strip s e)

  then_run-strip :
      (r r' : Result Outcome) (f : SessionState → Result Outcome)
      → stripped r ≡ stripped r'
      → ((s t : SessionState) → strip s ≡ strip t → stripped (f s) ≡ stripped (f t))
      → stripped (r >>= λ o. f o.0 >>= λ l. ok (l.0, o.1 ++ l.1))
        ≡ stripped (r' >>= λ o. f o.0 >>= λ l. ok (l.0, o.1 ++ l.1))
  then_run-strip (ok o) (ok o') f h g =
      let same = ap (λ r. outcome_or o r) h in
      stripped-prefixed o.1 (f o.0)
      ∙ ap (prefixed o.1) (g o.0 o'.0 (ap (λ p. p.0) same))
      ∙ ap (λ cs. prefixed cs (stripped (f o'.0))) (ap (λ p. p.1) same)
      ∙ sym (stripped-prefixed o'.1 (f o'.0))
  then_run-strip (ok o) (err e) f h g = cc
  then_run-strip (err e) (ok o) f h g = cc
  then_run-strip (err e) (err e') f h g = h

  -- Two states that differ only in the session-level review signals issue the same commands over
  -- any events, raise the same errors, and end in states that again differ only in those signals.
  pub run-strip :
      (events : List Event) (s t : SessionState)
      → strip s ≡ strip t
      → stripped (run lib config s events) ≡ stripped (run lib config t events)
  unfolding run
  run-strip [] s t h = ap (λ u. ok (u, [])) h
  run-strip (e ∷ events) s t h =
      then_run-strip (transition lib config s e) (transition lib config t e)
        (λ u. run lib config u events)
        (transition-strip s e
          ∙ ap (λ u. stripped (transition lib config u e)) h
          ∙ sym (transition-strip t e))
        (run-strip events)
