-- ===== src/Orchestrator/Adjudication.antt =====
-- `_basis` and `adjudicate` of app/backend/orchestrator/state_machine.py.
pub mod Table
use tech_screen_ai.Prelude.{
  ℕ, ◌*◌, Bool, false, ◌&&◌, ◌||◌, Option, none, some, leb, nat_eq, if◌then◌else◌, is_some,
}
use tech_screen_ai.Prelude.Int.{ℤ, pos, leb_ℤ}
use tech_screen_ai.Orchestrator.Command.{GapMarker}
use tech_screen_ai.Orchestrator.State.{CoverageCell}
use tech_screen_ai.Orchestrator.Config.{OrchestratorConfig, AdjudicationConfig}

pub data Verdict : Type 0 where
  answered clarify nothing : Verdict

pub data AdjudicationBasis : Type 0 where
  assessment pending failed not_assessable : AdjudicationBasis

pub record Adjudication : Type 0 where
  pub verdict : Verdict
  pub basis : AdjudicationBasis
  pub gap_marker : Option GapMarker

unfoldable pub basis_of : Option CoverageCell → AdjudicationBasis
basis_of none = AdjudicationBasis.pending
basis_of (some cell) =
    if is_some cell.best_level
    then AdjudicationBasis.assessment
    else if cell.gap_not_assessable
    then AdjudicationBasis.not_assessable
    else if cell.assessment_failed
    then AdjudicationBasis.failed
    else AdjudicationBasis.pending

-- `level is not None and level >= target`, at `best_level` and `best_confidence`
abbrev reaches : Option ℕ → ℕ → Bool
reaches none bound = false
reaches (some n) bound = leb bound n

-- The test of step 1.
unfoldable pub has_answered : Option CoverageCell → ℕ → AdjudicationConfig → Bool
has_answered none target_level thresholds = false
has_answered (some cell) target_level thresholds =
    is_some cell.best_level
    && is_some cell.best_confidence
    && reaches cell.best_level target_level
    && reaches cell.best_confidence thresholds.confidence_min

-- The test of step 2.
unfoldable pub is_level_zero : Option CoverageCell → Bool
is_level_zero none = false
is_level_zero (some cell) = elim cell.latest_level [ none ↦ false | some n ↦ nat_eq n 0 ]

-- The first half of the test of step 4.
unfoldable pub lacks_evidence : Option CoverageCell → Bool
lacks_evidence none = false
lacks_evidence (some cell) = cell.gap_not_assessable

-- Seconds, in microseconds.
abbrev pub seconds : ℕ → ℕ
seconds n = n * 1000000

unfoldable pub adjudicate :
    (cell : Option CoverageCell) (target_level probes_used : ℕ) (seconds_remaining : ℤ)
    → OrchestratorConfig
    → Adjudication
adjudicate cell target_level probes_used seconds_remaining config =
    let thresholds = config.adjudication in
    let basis = basis_of cell in
    if has_answered cell target_level thresholds
    then record { verdict = Verdict.answered; basis = basis; gap_marker = none }
    else if is_level_zero cell
    then record { verdict = Verdict.nothing; basis = basis; gap_marker = some GapMarker.level_zero }
    else if leb thresholds.max_probes_per_competency probes_used
        || leb_ℤ seconds_remaining (pos (seconds thresholds.min_probe_seconds))
    then record {
      verdict = Verdict.nothing;
      basis = basis;
      gap_marker = some GapMarker.gap_budget_exhausted;
    }
    else if lacks_evidence cell && leb 1 probes_used
    then record {
      verdict = Verdict.nothing;
      basis = basis;
      gap_marker = some GapMarker.gap_not_assessable;
    }
    else record { verdict = Verdict.clarify; basis = basis; gap_marker = none }
