-- ===== src/Orchestrator/Context.antt =====
-- The `move_context` builders of app/backend/orchestrator/state_machine.py.
use tech_screen_ai.Prelude.{ℕ, String, Option, none, some, List, [], ◌∷◌}
use tech_screen_ai.Prelude.Int.{pos}
use tech_screen_ai.Json.{Json}
use tech_screen_ai.Orchestrator.Command.{MoveContext}
use tech_screen_ai.Orchestrator.Plan.{PlannedCompetency, PlanSnapshot, probe_branch}
use tech_screen_ai.Orchestrator.State.{Result, ok, err, StateError, ◌>>=◌}

abbrev text_or_null : Option String → Json
text_or_null none = Json.null
text_or_null (some s) = Json.str s

-- `seq[0]`
abbrev pub first {ℓ} : {A : Type ℓ} → List A → Result A
first [] = err StateError.index_error
first (x ∷ xs) = ok x

unfoldable pub first_seed_context : PlannedCompetency → Result MoveContext
first_seed_context competency = do
  seed ← first competency.seed_questions_uk
  ok (
      ("competency_node_id", Json.str competency.node_id)
      ∷ ("seed_index", Json.int (pos 0))
      ∷ ("seed_question_uk", Json.str seed)
      ∷ [])

unfoldable pub next_seed_context : PlannedCompetency → ℕ → String → MoveContext
next_seed_context competency seed_index seed =
    ("competency_node_id", Json.str competency.node_id)
    ∷ ("seed_index", Json.int (pos seed_index))
    ∷ ("next_seed_question_uk", Json.str seed)
    ∷ []

unfoldable pub probe_context : PlannedCompetency → ℕ → MoveContext
unfolding probe_branch
probe_context competency probe_index =
    ("competency_node_id", Json.str competency.node_id)
    ∷ ("probe_index", Json.int (pos probe_index))
    ∷ ("probe_branch_uk", text_or_null (probe_branch competency probe_index))
    ∷ []

abbrev node_or_null : Option PlannedCompetency → Json
node_or_null none = Json.null
node_or_null (some c) = Json.str c.node_id

unfoldable pub advance_context : Option PlannedCompetency → PlannedCompetency → Result MoveContext
advance_context closing following = do
  seed ← first following.seed_questions_uk
  ok (
      ("closing_competency_node_id", node_or_null closing)
      ∷ ("competency_node_id", Json.str following.node_id)
      ∷ ("next_competency_node_id", Json.str following.node_id)
      ∷ ("next_competency_label_uk", Json.str following.label_uk)
      ∷ ("seed_index", Json.int (pos 0))
      ∷ ("next_seed_question_uk", Json.str seed)
      ∷ [])

unfoldable pub qa_context : PlanSnapshot → MoveContext
qa_context plan = ("phase", Json.str "qa") ∷ ("qa_minutes", Json.int (pos plan.qa_minutes)) ∷ []
