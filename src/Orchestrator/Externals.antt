-- ===== src/Orchestrator/Externals.antt =====
-- What app/backend/orchestrator calls and does not implement: `uuid.uuid5`, and pydantic's
-- validation of a raw plan.
use tech_screen_ai.Prelude.{String, ◌≡◌, Option, some}
use tech_screen_ai.Json.{Fields}
use tech_screen_ai.Orchestrator.Command.{Uuid}
use tech_screen_ai.Orchestrator.Plan.{PlanSnapshot, IsPlan}

pub record Externals : Type 0 where
  pub uuid5 : Uuid → String → Uuid
  -- `PlanSnapshot.model_validate`; `none` is a `ValidationError`
  pub model_validate : Fields → Option PlanSnapshot

-- pydantic returns a model only when the declared bounds of its fields hold; and the plans that are
-- handed in have minutes that a `timedelta` and a float can hold, which pydantic does not check.
abbrev pub Validates : Externals → Type 0
Validates lib = (raw : Fields) (p : PlanSnapshot) → lib.model_validate raw ≡ some p → IsPlan p

-- `uuid5` of one namespace hashes distinct names to distinct ids (no collision).
abbrev pub IsCollisionFree : Externals → Type 0
IsCollisionFree lib =
    (namespace : Uuid) (m n : String) → lib.uuid5 namespace m ≡ lib.uuid5 namespace n → m ≡ n
