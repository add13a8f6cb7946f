-- ===== src/Llm/Models.antt =====
-- app/backend/llm/models_config.py: the model of each agent.
use tech_screen_ai.Prelude.{ℕ, String, Option, none, some, if◌then◌else◌, ◌==◌, string_eq}

-- The temperature is the bit pattern of a float.
pub record ModelConfig : Type 0 where
  pub model : String
  pub prompt_version : String
  pub temperature : ℕ
  pub max_output_tokens : ℕ

pub record ModelsConfig : Type 0 where
  pub interviewer : ModelConfig
  pub assessor : ModelConfig
  pub planner : ModelConfig

-- `none` is `ModelCallConfigError`.
unfoldable pub for_agent : ModelsConfig → String → Option ModelConfig
for_agent models agent =
    if agent == "interviewer"
    then some models.interviewer
    else if agent == "assessor"
    then some models.assessor
    else if agent == "planner"
    then some models.planner
    else none
