-- ===== src/Orchestrator/Coverage.antt =====
-- The coverage updates of app/backend/orchestrator/state_machine.py.
pub mod Levels
pub mod Pending
use tech_screen_ai.Prelude.{
  ℕ, suc, String, Bool, true, false, ◌||◌, Option, none, some, List, [], ◌∷◌, ◌++◌, map, leb,
  if◌then◌else◌, ◌==◌, string_eq,
}
use tech_screen_ai.Prelude.Dict.{insert, erase, get_or}
use tech_screen_ai.Agents.Output.{AssessmentItem, AssessorOutput, RedFlagItem, RedFlagType}
use tech_screen_ai.Orchestrator.Command.{Uuid}
use tech_screen_ai.Orchestrator.State.{CoverageCell, Coverage, TechState, empty_cell}

-- `best_level is None or item.level >= best_level`
abbrev pub improves : Option ℕ → ℕ → Bool
improves none level = true
improves (some best) level = leb best level

-- The cell after one more assessment of its node.
unfoldable pub record_level : CoverageCell → AssessmentItem → CoverageCell
record_level cell item =
    let better = improves cell.best_level item.level in
    record cell {
      best_level = if better then some item.level else cell.best_level;
      best_confidence = if better then some item.confidence else cell.best_confidence;
      latest_level = some item.level;
      latest_confidence = some item.confidence;
    }

-- One round of the loop over the assessments.
unfoldable pub record_item : Coverage → AssessmentItem → Coverage
unfolding record_level
record_item coverage item =
    insert item.rubric_node_id (record_level (get_or item.rubric_node_id empty_cell coverage) item)
      coverage

unfoldable pub record_items : Coverage → List AssessmentItem → Coverage
unfolding record_item
record_items coverage [] = coverage
record_items coverage (item ∷ items) = record_items (record_item coverage item) items

unfoldable pub mark_not_assessable : Coverage → String → Coverage
mark_not_assessable coverage node =
    insert node (record (get_or node empty_cell coverage) { gap_not_assessable = true }) coverage

abbrev record_some : Coverage → String → List AssessmentItem → Coverage
record_some coverage focus [] = mark_not_assessable coverage focus
record_some coverage focus (item ∷ items) = record_items coverage (item ∷ items)

unfoldable pub record_levels : Coverage → AssessorOutput → Coverage
unfolding record_items mark_not_assessable
record_levels coverage output = record_some coverage output.competency_focus output.assessments

abbrev flag_type : RedFlagItem → RedFlagType
flag_type flag = flag.type

unfoldable pub record_review_signals : Coverage → AssessorOutput → Coverage
record_review_signals coverage output =
    let cell = get_or output.competency_focus empty_cell coverage in
    insert output.competency_focus
      (record cell {
        needs_manual_review = cell.needs_manual_review || output.needs_manual_review;
        red_flags = cell.red_flags ++ map flag_type output.red_flags;
      })
      coverage

-- `tuple(t for t in ids if t != turn_id)`
unfoldable pub without : Uuid → List Uuid → List Uuid
without id [] = []
without id (t ∷ ts) = let rest = without id ts in if t == id then rest else t ∷ rest

unfoldable pub contains : Uuid → List Uuid → Bool
contains id [] = false
contains id (t ∷ ts) = t == id || contains id ts

unfoldable pub drop_pending : TechState → Uuid → TechState
unfolding without
drop_pending tech id = record tech {
  pending_assessments = without id tech.pending_assessments;
  assessment_focus = erase id tech.assessment_focus;
}

abbrev is_cheating : RedFlagType → Bool
is_cheating RedFlagType.likely_cheating = true
is_cheating _ = false

-- `sum(1 for flag in red_flags if flag.type == CHEAT_RED_FLAG)`
unfoldable pub count_cheating : List RedFlagItem → ℕ
count_cheating [] = 0
count_cheating (flag ∷ flags) =
    let rest = count_cheating flags in if is_cheating flag.type then suc rest else rest
