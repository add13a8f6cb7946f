-- ===== src/Orchestrator/Examples.antt =====
-- The theorems on the sample session, and tests of the machine.
use tech_screen_ai.Prelude.{
  ◌≤◌, ◌≡◌, ◌↔◌, refl, true, none, some, [], ◌∷◌, arith, string_eq, string_eq_iff,
}
use tech_screen_ai.Prelude.Decimal.{decimal}
use tech_screen_ai.Prelude.Dict.{lookup, insert}
use tech_screen_ai.Prelude.Int.{pos}
use tech_screen_ai.Json.{Fields}
use tech_screen_ai.Agents.Output.{InterviewerMove}
use tech_screen_ai.Orchestrator.Adjudication.{
  Verdict, seconds, adjudicate, has_answered, is_level_zero, lacks_evidence,
}
use tech_screen_ai.Orchestrator.Adjudication.Table.{
  Demonstrates, LatestIsZero, NotAssessable, HasBudget, clarify_iff, gap_table,
}
use tech_screen_ai.Orchestrator.Attribution.{KeepsAttributed, pending_attributed}
use tech_screen_ai.Orchestrator.Command.{GapMarker, DecisionReason, PendingCommand, Command}
use tech_screen_ai.Orchestrator.Coverage.{record_items}
use tech_screen_ai.Orchestrator.Coverage.Levels.{
  cell_of, items_of, highest, last_level, record_items-levels,
}
use tech_screen_ai.Orchestrator.Event.{Event}
use tech_screen_ai.Orchestrator.Flags.{KeepsFlag, flag_exact}
use tech_screen_ai.Orchestrator.Handlers.{
  on_session_started, on_candidate_turn, on_intro_candidate_turn, on_interviewer_reply,
}
use tech_screen_ai.Orchestrator.Invariant.{Keeps}
use tech_screen_ai.Orchestrator.Invariant.Runs.{session_sound}
use tech_screen_ai.Orchestrator.Moves.{next_turn_id, time_left, seconds_remaining}
use tech_screen_ai.Orchestrator.Plan.{float_bound}
use tech_screen_ai.Orchestrator.Phases.{
  MayStep, NoEarlier, transition-MayStep, run-NoEarlier, run-terminal,
}
use tech_screen_ai.Orchestrator.Progress.{Spends}
use tech_screen_ai.Orchestrator.Progress.Runs.{run-Spends}
use tech_screen_ai.Orchestrator.Replies.{
  IsStale, state_of, stale_ignored, failure_ladder, reconnect_transparent,
}
use tech_screen_ai.Orchestrator.Signals.{stripped, run-strip}
use tech_screen_ai.Orchestrator.State.{Phase, AbortReason, ok, initial_state}
use tech_screen_ai.Orchestrator.TechTurn.{on_tech_candidate_turn, route, adjudicated, schedule}
use tech_screen_ai.Orchestrator.Transition.{live_transition, transition, run}
use tech_screen_ai.Orchestrator.TurnIds.{Issues, NewTurnsDistinct, run-Issues, run-NewTurnsDistinct}
use tech_screen_ai.Orchestrator.Samples.{
  sample_plan, sample_lib, sample_config, sample_lib-Validates, sample_lib-IsCollisionFree,
  sample_config-IsConfig, new_session, asked, asked-IsSound, first_attempt, probing, spoken, script,
  after_script, scored,
}

-- The machine at work: the phase, the move in flight and the drift after `script`.
script_test : (state_of (run sample_lib sample_config new_session script)) ≡ ok after_script
unfolding run transition live_transition initial_state on_session_started on_candidate_turn
    on_intro_candidate_turn on_tech_candidate_turn route adjudicated schedule has_answered
    is_level_zero lacks_evidence lookup insert on_interviewer_reply next_turn_id decimal
    seconds_remaining time_left float_bound
script_test = refl

session_sound_example : Keeps sample_config (run sample_lib sample_config new_session script)
session_sound_example =
    session_sound sample_lib sample_config "session" Fields.end script sample_lib-Validates refl

run-Spends_example :
    Spends sample_config sample_plan asked (run sample_lib sample_config asked script)
run-Spends_example =
    run-Spends sample_lib sample_config sample_lib-Validates sample_plan asked script asked-IsSound
      refl

transition-MayStep_example :
    MayStep
      (Event.timer_tick (seconds 2700))
      Phase.tech
      (transition sample_lib sample_config asked (Event.timer_tick (seconds 2700)))
transition-MayStep_example =
    transition-MayStep sample_lib sample_config asked (Event.timer_tick (seconds 2700))

run-NoEarlier_example : NoEarlier Phase.tech (run sample_lib sample_config asked script)
run-NoEarlier_example = run-NoEarlier sample_lib sample_config asked script

run-terminal_example :
    run sample_lib sample_config (record asked { phase = Phase.completed }) script
    ≡ ok (record asked { phase = Phase.completed }, [])
run-terminal_example =
    run-terminal sample_lib sample_config (record asked { phase = Phase.completed }) script refl

flag_exact_example : KeepsFlag sample_config (run sample_lib sample_config new_session script)
flag_exact_example =
    flag_exact sample_lib sample_config "session" Fields.end script sample_config-IsConfig

run-Issues_example : Issues sample_lib asked (run sample_lib sample_config asked script)
run-Issues_example = run-Issues sample_lib sample_config asked script

run-NewTurnsDistinct_example : NewTurnsDistinct (run sample_lib sample_config new_session script)
run-NewTurnsDistinct_example =
    run-NewTurnsDistinct sample_lib sample_config new_session script sample_lib-IsCollisionFree

pending_attributed_example : KeepsAttributed "c1" (run sample_lib sample_config new_session script)
pending_attributed_example =
    pending_attributed sample_lib sample_config "c1" "session" Fields.end script

run-strip_example :
    stripped (run sample_lib sample_config (record asked { flagged_for_review = true }) script)
    ≡ stripped (run sample_lib sample_config asked script)
run-strip_example =
    run-strip sample_lib sample_config script (record asked { flagged_for_review = true }) asked
      refl

probing-IsStale : IsStale probing "turn/1"
probing-IsStale c e = ground (arith, string_eq_iff "turn/2" "turn/1")

stale_ignored_example :
    (transition sample_lib sample_config probing
        (Event.interviewer_reply_ready "turn/1" (spoken InterviewerMove.ask_seed) (seconds 70))
      ≡ ok (probing, []))
    × (transition sample_lib sample_config probing
          (Event.interviewer_failed "turn/1" "timeout" (seconds 70))
        ≡ ok (probing, []))
stale_ignored_example =
    stale_ignored sample_lib sample_config probing "turn/1" (spoken InterviewerMove.ask_seed)
      "timeout" (seconds 70) probing-IsStale

failure_ladder_example :
    run sample_lib sample_config probing (
      Event.interviewer_failed "turn/2" "timeout" (seconds 70)
      ∷ Event.interviewer_failed "turn/2" "schema" (seconds 80)
      ∷ [])
    ≡ ok (
      record probing {
        interviewer_failure_streak = 1;
        phase = Phase.aborted;
        abort_reason = some AbortReason.fatal_agent_error;
        awaiting = none;
        pending_command = none;
      },
      Command.outbound (PendingCommand.run_interviewer (record first_attempt { retry = true }))
          ∷ Command.flag_turn_degraded "turn/2" "timeout"
          ∷ Command.persist_state
          ∷ Command.record_decision DecisionReason.agent_failure
          ∷ Command.persist_state
          ∷ [],
    )
failure_ladder_example =
    failure_ladder sample_lib sample_config probing first_attempt "timeout" "schema" (seconds 70)
      (seconds 80) refl refl refl refl

reconnect_transparent_example :
    state_of (run sample_lib sample_config asked (Event.reconnected (seconds 65) ∷ script))
    ≡ state_of (run sample_lib sample_config asked script)
reconnect_transparent_example =
    reconnect_transparent sample_lib sample_config asked (seconds 65) script

clarify_iff_example :
    ((adjudicate none 3 1 (pos 100000000) sample_config).verdict ≡ Verdict.clarify) ↔ (
      (¬ Demonstrates none 3 0x3fe3333333333333)
      × (¬ LatestIsZero none)
      × HasBudget sample_config.adjudication 1 (pos 100000000)
      × (¬ (NotAssessable none × (1 ≤ 1))))
clarify_iff_example = clarify_iff none 3 1 (pos 100000000) sample_config

gap_table_example :
    (((adjudicate none 3 2 (pos 100) sample_config).gap_marker ≡ some GapMarker.level_zero)
      ↔ ((¬ Demonstrates none 3 0x3fe3333333333333) × LatestIsZero none))
    × (((adjudicate none 3 2 (pos 100) sample_config).gap_marker
          ≡ some GapMarker.gap_budget_exhausted)
        ↔ ((¬ Demonstrates none 3 0x3fe3333333333333)
            × (¬ LatestIsZero none)
            × (¬ HasBudget sample_config.adjudication 2 (pos 100))))
    × (((adjudicate none 3 2 (pos 100) sample_config).gap_marker
          ≡ some GapMarker.gap_not_assessable)
        ↔ ((¬ Demonstrates none 3 0x3fe3333333333333)
            × (¬ LatestIsZero none)
            × HasBudget sample_config.adjudication 2 (pos 100)
            × NotAssessable none
            × (1 ≤ 2)))
gap_table_example = gap_table none 3 2 (pos 100) sample_config

record_items-levels_example :
    let after = cell_of "python.async" (record_items [] (scored 3 ∷ scored 1 ∷ [])) in
    (after.best_level ≡ highest none (items_of "python.async" (scored 3 ∷ scored 1 ∷ [])))
    × (after.latest_level ≡ last_level none (items_of "python.async" (scored 3 ∷ scored 1 ∷ [])))
unfolding lookup
record_items-levels_example = record_items-levels "python.async" [] (scored 3 ∷ scored 1 ∷ [])
