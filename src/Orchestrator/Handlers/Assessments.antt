-- ===== src/Orchestrator/Handlers/Assessments.antt =====
-- The handlers of app/backend/orchestrator/state_machine.py for what the Assessor answers.
use tech_screen_ai.Prelude.{
  ◌+◌, String, true, not, ◌||◌, Option, none, some, [], ◌∷◌, leb, if◌then◌else◌, string_eq,
}
use tech_screen_ai.Prelude.Dict.{lookup, insert, get_or}
use tech_screen_ai.Agents.Output.{AssessorOutput}
use tech_screen_ai.Orchestrator.Command.{Uuid, Command}
use tech_screen_ai.Orchestrator.Config.{OrchestratorConfig}
use tech_screen_ai.Orchestrator.Coverage.{
  record_levels, record_review_signals, contains, drop_pending, count_cheating,
}
use tech_screen_ai.Orchestrator.Moves.{ignore}
use tech_screen_ai.Orchestrator.State.{TechState, SessionState, Outcome, empty_cell}

unfoldable pub on_assessment_completed :
    SessionState → Uuid → AssessorOutput → OrchestratorConfig → Outcome
unfolding contains record_levels record_review_signals drop_pending count_cheating ignore
on_assessment_completed state id output config =
    let cheat_total = state.cheat_flag_count + count_cheating output.red_flags in
    let dropped = drop_pending state.tech id in
    if not (contains id state.tech.pending_assessments) then ignore state else (
      record state {
        tech = record dropped {
          coverage = record_review_signals (record_levels state.tech.coverage output) output;
        };
        cheat_flag_count = cheat_total;
        needs_manual_review = state.needs_manual_review || output.needs_manual_review;
        flagged_for_review =
            state.flagged_for_review || leb config.flags.cheat_flags_to_review cheat_total;
      },
      Command.persist_state ∷ [],
    )

-- Edge 9: the cell of `node` is marked, if the turn was scheduled against one.
unfoldable pub mark_failed : TechState → Option String → TechState
mark_failed tech none = tech
mark_failed tech (some node) = record tech {
  coverage =
      insert node (record (get_or node empty_cell tech.coverage) { assessment_failed = true })
        tech.coverage;
}

unfoldable pub on_assessment_failed : SessionState → Uuid → Outcome
unfolding contains drop_pending mark_failed ignore
on_assessment_failed state id =
    if not (contains id state.tech.pending_assessments) then ignore state else (
      record state {
        tech = mark_failed (drop_pending state.tech id) (lookup id state.tech.assessment_focus);
      },
      Command.persist_state ∷ [],
    )
