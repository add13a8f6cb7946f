-- ===== src/Orchestrator/Config.antt =====
-- app/backend/orchestrator/config.py: the routing thresholds.
use tech_screen_ai.Prelude.{ℕ, ◌≤◌}

-- `confidence_min` is a double of [0, 0.99], given by its bit pattern, as confidences are.
pub record AdjudicationConfig : Type 0 where
  pub confidence_min : ℕ
  pub max_probes_per_competency : ℕ
  pub min_probe_seconds : ℕ

pub record FlagsConfig : Type 0 where
  pub cheat_flags_to_review : ℕ
  pub drift_to_review : ℕ

pub record TimingConfig : Type 0 where
  pub candidate_timeout_minutes : ℕ
  pub tick_seconds : ℕ

pub record OrchestratorConfig : Type 0 where
  pub adjudication : AdjudicationConfig
  pub flags : FlagsConfig
  pub timing : TimingConfig
  pub state_schema_version : ℕ

-- The bit pattern of 0.99.
abbrev pub confidence_ceiling : ℕ
confidence_ceiling = 0x3fefae147ae147ae

-- The bounds that the fields declare.
pub record IsConfig (c : OrchestratorConfig) : Type 0 where
  pub confidence_min : c.adjudication.confidence_min ≤ confidence_ceiling
  pub cheat_flags_to_review : 1 ≤ c.flags.cheat_flags_to_review
  pub drift_to_review : 1 ≤ c.flags.drift_to_review
  pub candidate_timeout_minutes : 1 ≤ c.timing.candidate_timeout_minutes
  pub tick_seconds : 15 ≤ c.timing.tick_seconds
  pub state_schema_version : 1 ≤ c.state_schema_version
