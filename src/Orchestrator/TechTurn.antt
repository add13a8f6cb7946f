-- ===== src/Orchestrator/TechTurn.antt =====
-- `_on_tech_candidate_turn` of app/backend/orchestrator/state_machine.py: one function for each of
-- the ways it leaves the adjudication.
use tech_screen_ai.Prelude.{
  ◌+◌, String, true, Option, none, some, List, [], ◌∷◌, ◌++◌, if◌then◌else◌, string_eq,
}
use tech_screen_ai.Prelude.Dict.{lookup, insert, get_or}
use tech_screen_ai.Prelude.Int.{ℤ, pos, ltb_ℤ}
use tech_screen_ai.Agents.Output.{InterviewerMove}
use tech_screen_ai.Orchestrator.Adjudication.{Verdict, Adjudication, adjudicate}
use tech_screen_ai.Orchestrator.Command.{Uuid, GapMarker, Command}
use tech_screen_ai.Orchestrator.Config.{OrchestratorConfig}
use tech_screen_ai.Orchestrator.Context.{probe_context, next_seed_context, advance_context}
use tech_screen_ai.Orchestrator.Externals.{Externals}
use tech_screen_ai.Orchestrator.Moves.{
  require_plan, current_competency, seconds_remaining, issue_interviewer, enter_qa,
}
use tech_screen_ai.Orchestrator.Plan.{PlannedCompetency, PlanSnapshot, seed_question, competency}
use tech_screen_ai.Orchestrator.State.{
  Time, TechState, SessionState, Result, ok, ◌>>=◌, Outcome, empty_cell,
}

-- Step 1: the turn's assessment becomes pending.
unfoldable pub schedule : TechState → Uuid → PlannedCompetency → TechState
schedule tech id c = record tech {
  pending_assessments = tech.pending_assessments ++ id ∷ [];
  assessment_focus = insert id c.node_id tech.assessment_focus;
}

-- `gap_budget_exhausted` is the one marker that is written to the cell here.
unfoldable pub mark_gap : TechState → PlannedCompetency → Option GapMarker → TechState
mark_gap tech c (some GapMarker.gap_budget_exhausted) = record tech {
  coverage =
      insert c.node_id
        (record (get_or c.node_id empty_cell tech.coverage) { gap_budget_exhausted = true })
        tech.coverage;
}
mark_gap tech c _ = tech

-- `verdict.gap_marker or "gap_budget_exhausted"`
abbrev marker_or_budget : Option GapMarker → GapMarker
marker_or_budget none = GapMarker.gap_budget_exhausted
marker_or_budget (some marker) = marker

unfoldable pub gap_commands : Verdict → PlannedCompetency → Option GapMarker → List Command
gap_commands Verdict.nothing c marker = Command.record_gap c.node_id (marker_or_budget marker) ∷ []
gap_commands _ c marker = []

-- The move that leaves a competency.
unfoldable pub advance_move : Verdict → InterviewerMove
advance_move Verdict.answered = InterviewerMove.acknowledge_and_transition
advance_move _ = InterviewerMove.close_competency

abbrev pub enter_next : TechState → Time → TechState
enter_next tech now = record tech {
  competency_index = tech.competency_index + 1;
  seed_index = 0;
  probes_used = 0;
  competency_started_at = some now;
}

abbrev pub stage : SessionState → Time → TechState → SessionState
stage state now tech = record state { last_candidate_activity = some now; tech = tech }

abbrev assessor_command : Uuid → PlannedCompetency → Command
assessor_command id c = Command.run_assessor id c.node_id

-- The commands of each exit: the assessor, the interviewer, a gap if there is one, the save.
abbrev emit : Uuid → PlannedCompetency → List Command → SessionState × Command → Outcome
emit id c tail (state, interviewer) =
    (state, assessor_command id c ∷ interviewer ∷ (tail ++ Command.persist_state ∷ []))

-- The adjudication of a turn, at the coverage there is now.
unfoldable pub adjudicated : TechState → PlannedCompetency → ℤ → OrchestratorConfig → Adjudication
unfolding adjudicate
adjudicated tech c remaining config =
    adjudicate (lookup c.node_id tech.coverage) c.target_level tech.probes_used remaining config

module _ (lib : Externals) where
  -- Edge 11.
  unfoldable pub probe :
      SessionState → TechState → PlannedCompetency → Time → SessionState × Command
  unfolding issue_interviewer probe_context
  probe state tech c now =
      issue_interviewer lib (stage state now (record tech { probes_used = tech.probes_used + 1 }))
        InterviewerMove.depth_probe (some c.node_id) (probe_context c tech.probes_used)

  -- Edge 10 within a competency.
  unfoldable pub next_seed :
      SessionState → TechState → PlannedCompetency → String → Time → SessionState × Command
  unfolding issue_interviewer next_seed_context
  next_seed state tech c seed now =
      issue_interviewer lib (stage state now (record tech { seed_index = tech.seed_index + 1 }))
        InterviewerMove.acknowledge_and_transition (some c.node_id)
        (next_seed_context c (tech.seed_index + 1) seed)

  -- Edges 10, 12 and 13: on to the next competency, or to Q&A after the last.
  unfoldable pub leave_to :
      (state : SessionState) (tech : TechState) (c : PlannedCompetency) (verdict : Verdict)
      (now : Time)
      → Option PlannedCompetency
      → Result (SessionState × Command)
  unfolding issue_interviewer enter_qa advance_context advance_move
  leave_to state tech c verdict now none = enter_qa lib (stage state now tech) now
  leave_to state tech c verdict now (some following) = do
    context ← advance_context (some c) following
    ok (
        issue_interviewer lib (stage state now (enter_next tech now)) (advance_move verdict)
          (some following.node_id) context)

  unfoldable pub leave_competency :
      (state : SessionState) (tech : TechState) (plan : PlanSnapshot) (c : PlannedCompetency)
      → Verdict
      → Time
      → Result (SessionState × Command)
  unfolding leave_to competency
  leave_competency state tech plan c verdict now =
      leave_to state tech c verdict now (competency plan (tech.competency_index + 1))

  -- What follows the adjudication `a` of a turn, with `remaining` time for the competency.
  unfoldable pub route :
      (state : SessionState) (tech : TechState) (plan : PlanSnapshot) (c : PlannedCompetency)
      (id : Uuid) (remaining : ℤ) (now : Time) (verdict : Verdict)
      → Option GapMarker
      → Result Outcome
  unfolding probe next_seed leave_competency mark_gap gap_commands seed_question
  route state tech plan c id remaining now Verdict.clarify marker =
      ok (emit id c [] (probe state tech c now))
  route state tech plan c id remaining now Verdict.nothing marker = do
    left ← leave_competency state (mark_gap tech c marker) plan c Verdict.nothing now
    ok (emit id c (gap_commands Verdict.nothing c marker) left)
  route state tech plan c id remaining now Verdict.answered marker =
      elim (seed_question c (tech.seed_index + 1)) [
        | none ↦ do
          left ← leave_competency state tech plan c Verdict.answered now
          ok (emit id c [] left)
        | some seed ↦
            if ltb_ℤ (pos 0) remaining
            then ok (emit id c [] (next_seed state tech c seed now))
            else do
              left ← leave_competency state tech plan c Verdict.answered now
              ok (emit id c [] left)
      ]

  unfoldable pub on_tech_candidate_turn :
      SessionState → Uuid → Time → OrchestratorConfig → Result Outcome
  unfolding require_plan current_competency
  on_tech_candidate_turn state id now config = do
    plan ← require_plan state
    c ← current_competency state
    let tech = schedule state.tech id c
    remaining ← seconds_remaining c tech.competency_started_at now
    let a = adjudicated tech c remaining config
    route state tech plan c id remaining now a.verdict a.gap_marker
