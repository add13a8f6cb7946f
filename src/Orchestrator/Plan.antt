-- ===== src/Orchestrator/Plan.antt =====
-- app/backend/orchestrator/plan.py: the interview plan and its validation.
use tech_screen_ai.Prelude.{
  ℕ, ◌-◌, ◌^◌, ltb, ◌≡◌, true, ◌≤◌, String, ◌≢◌, Option, none, List, length, get_elem?, All,
}
use tech_screen_ai.Json.{Json, Fields}

-- `timedelta(minutes=n)` raises from this n on: 10 ** 9 days.
abbrev pub timedelta_bound : ℕ
timedelta_bound = 1440000000000

-- `float(n)` raises from this n on.
unfoldable pub float_bound : ℕ
float_bound = 2 ^ 1024 - 2 ^ 970

pub record PlannedCompetency : Type 0 where
  pub node_id : String
  pub label_uk : String
  pub target_level : ℕ
  pub minutes : ℕ
  pub seed_questions_uk : List String
  pub probe_branches_uk : List String

-- `NonEmptyStr`
abbrev pub IsNonEmpty : String → Type 0
IsNonEmpty s = s ≢ ""

-- The bounds that the fields of `PlannedCompetency` declare, and minutes that a float can hold.
pub record IsPlannedCompetency (c : PlannedCompetency) : Type 0 where
  pub node_id : IsNonEmpty c.node_id
  pub label_uk : IsNonEmpty c.label_uk
  pub target_level : (1 ≤ c.target_level) × (c.target_level ≤ 5)
  pub minutes : 1 ≤ c.minutes
  pub minutes_fit : ltb c.minutes float_bound ≡ true
  pub seed_questions_uk : 1 ≤ length c.seed_questions_uk
  pub seed_texts : All IsNonEmpty c.seed_questions_uk
  pub probe_texts : All IsNonEmpty c.probe_branches_uk

-- `none` past the end; an index is never negative here.
unfoldable pub seed_question : PlannedCompetency → ℕ → Option String
seed_question c index = get_elem? c.seed_questions_uk index

unfoldable pub probe_branch : PlannedCompetency → ℕ → Option String
probe_branch c index = get_elem? c.probe_branches_uk index

pub record PlanSnapshot : Type 0 where
  pub plan_version : ℕ
  pub competencies : List PlannedCompetency
  pub qa_minutes : ℕ
  pub session_max_minutes : ℕ

-- The bounds that the fields of `PlanSnapshot` declare, and minutes that a `timedelta` can hold.
pub record IsPlan (p : PlanSnapshot) : Type 0 where
  pub plan_version : 1 ≤ p.plan_version
  pub competencies : 1 ≤ length p.competencies
  pub each_competency : All IsPlannedCompetency p.competencies
  pub session_max_minutes : 1 ≤ p.session_max_minutes
  pub session_fits : ltb p.session_max_minutes timedelta_bound ≡ true
  pub qa_fits : ltb p.qa_minutes timedelta_bound ≡ true

unfoldable pub competency : PlanSnapshot → ℕ → Option PlannedCompetency
competency p index = get_elem? p.competencies index

-- `model_validate` is pydantic's; `none` stands for the `PlanInvalid` that is raised.
unfoldable pub validate_plan : (Fields → Option PlanSnapshot) → Json → Option PlanSnapshot
validate_plan model_validate (Json.obj raw) = model_validate raw
validate_plan model_validate _ = none
