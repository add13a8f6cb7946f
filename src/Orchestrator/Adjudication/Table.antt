-- ===== src/Orchestrator/Adjudication/Table.antt =====
-- The 2/1/0 table of docs/contracts/state-machine.md section 5, and that `adjudicate` decides it.
use tech_screen_ai.Prelude.{
  ℕ, ◌≤◌, ◌<◌, ◌+◌, ◌≡◌, ◌↔◌, inl, inr, refl, Bool, true, false, ◌&&◌, leb, Option, none, some,
  Option-cases, Bool-cases, arith,
}
use tech_screen_ai.Prelude.Int.{ℤ, pos_part, neg_part}
use tech_screen_ai.Orchestrator.State.{CoverageCell}
use tech_screen_ai.Orchestrator.Command.{GapMarker}
use tech_screen_ai.Orchestrator.Config.{OrchestratorConfig, AdjudicationConfig}
use tech_screen_ai.Orchestrator.Adjudication.{
  Verdict, has_answered, is_level_zero, lacks_evidence, seconds, adjudicate,
}

-- The best assessment is high enough, with enough confidence.
abbrev pub Demonstrates : Option CoverageCell → ℕ → ℕ → Type 0
Demonstrates cell target confidence =
    (c : CoverageCell) × (cell ≡ some c)
    × (level : ℕ) × (c.best_level ≡ some level)
    × (target ≤ level)
    × (k : ℕ) × (c.best_confidence ≡ some k)
    × (confidence ≤ k)

abbrev pub LatestIsZero : Option CoverageCell → Type 0
LatestIsZero cell = (c : CoverageCell) × (cell ≡ some c) × (c.latest_level ≡ some 0)

abbrev pub NotAssessable : Option CoverageCell → Type 0
NotAssessable cell = (c : CoverageCell) × (cell ≡ some c) × (c.gap_not_assessable ≡ true)

-- A probe is left, and there is time to hear its answer.
abbrev pub HasBudget : AdjudicationConfig → ℕ → ℤ → Type 0
HasBudget thresholds probes remaining =
    (probes < thresholds.max_probes_per_competency)
    × (seconds thresholds.min_probe_seconds + neg_part remaining < pos_part remaining)

has_answered_iff :
    (cell : Option CoverageCell) (target : ℕ) (thresholds : AdjudicationConfig)
    → (has_answered cell target thresholds ≡ true)
      ↔ Demonstrates cell target thresholds.confidence_min
unfolding has_answered
has_answered_iff none target thresholds = (λ h. cc, λ d. ground arith)
has_answered_iff (some c) target thresholds = (
  λ h. elim (Option-cases c.best_level) [
    | inl e ↦ absurd (ground arith)
    | inr (l, e) ↦ elim (Option-cases c.best_confidence) [
      | inl e' ↦ absurd (ground arith)
      | inr (k, e') ↦ (c, refl, l, e, ground arith, k, e', ground arith)
    ]
  ],
  λ d. ground arith,
)

is_level_zero_iff : (cell : Option CoverageCell) → (is_level_zero cell ≡ true) ↔ LatestIsZero cell
unfolding is_level_zero
is_level_zero_iff cell = (λ h. ground arith, λ d. ground arith)

lacks_evidence_iff :
    (cell : Option CoverageCell) → (lacks_evidence cell ≡ true) ↔ NotAssessable cell
unfolding lacks_evidence
lacks_evidence_iff cell = (λ h. ground arith, λ d. ground arith)

false_of_not : {b : Bool} → ¬ (b ≡ true) → b ≡ false
false_of_not {b} h = elim (Bool-cases b) [ inl e ↦ absurd (h e) | inr e ↦ e ]

both_left : (b : Bool) (n : ℕ) → (b && leb 1 n) ≡ true → b ≡ true
both_left b n h = ground arith

both_right : (b : Bool) (n : ℕ) → (b && leb 1 n) ≡ true → 1 ≤ n
both_right b n h = ground arith

not_both : {b : Bool} {n : ℕ} → b ≡ true → 1 ≤ n → (b && leb 1 n) ≡ false → ⊥
not_both p q h = ground arith

module _ (cell : Option CoverageCell) (target probes : ℕ) (remaining : ℤ)
    (config : OrchestratorConfig) where
  abbrev result_verdict : Verdict
  result_verdict = (adjudicate cell target probes remaining config).verdict

  verdict-clarify : (result_verdict ≡ Verdict.clarify) ↔ (
      (has_answered cell target config.adjudication ≡ false)
      × (is_level_zero cell ≡ false)
      × HasBudget config.adjudication probes remaining
      × ((lacks_evidence cell && leb 1 probes) ≡ false))
  unfolding adjudicate
  verdict-clarify = (λ h. ground arith, λ h. ground arith)

  -- The verdict is CLARIFY exactly when the competency is not demonstrated, its latest level is
  -- not 0, the probe and time budgets have room, and no probe has met an empty assessment.
  pub clarify_iff : (result_verdict ≡ Verdict.clarify) ↔ (
      (¬ Demonstrates cell target config.adjudication.confidence_min)
      × (¬ LatestIsZero cell)
      × HasBudget config.adjudication probes remaining
      × (¬ (NotAssessable cell × (1 ≤ probes))))
  clarify_iff =
      let (answered_to, answered_from) = has_answered_iff cell target config.adjudication in
      let (zero_to, zero_from) = is_level_zero_iff cell in
      let (lack_to, lack_from) = lacks_evidence_iff cell in
      (
        λ h.
            let (a, z, room, l) = verdict-clarify.0 h in
            (
              λ d. cc (answered_from d),
              λ d. cc (zero_from d),
              room,
              λ d. not_both (lack_from d.0) d.1 l,
            ),
        λ h.
            let (a, z, room, l) = h in
            verdict-clarify.1 (
              false_of_not (λ e. a (answered_to e)),
              false_of_not (λ e. z (zero_to e)),
              room,
              false_of_not (λ e. l (
                lack_to (both_left (lacks_evidence cell) probes e),
                both_right (lacks_evidence cell) probes e,
              )),
            ),
      )

  abbrev result_marker : Option GapMarker
  result_marker = (adjudicate cell target probes remaining config).gap_marker

  marker-level_zero :
      (result_marker ≡ some GapMarker.level_zero)
      ↔ ((has_answered cell target config.adjudication ≡ false) × (is_level_zero cell ≡ true))
  unfolding adjudicate
  marker-level_zero = (λ h. ground arith, λ h. ground arith)

  marker-budget : (result_marker ≡ some GapMarker.gap_budget_exhausted) ↔ (
      (has_answered cell target config.adjudication ≡ false)
      × (is_level_zero cell ≡ false)
      × (¬ HasBudget config.adjudication probes remaining))
  unfolding adjudicate
  marker-budget = (λ h. ground arith, λ h. ground arith)

  marker-not_assessable : (result_marker ≡ some GapMarker.gap_not_assessable) ↔ (
      (has_answered cell target config.adjudication ≡ false)
      × (is_level_zero cell ≡ false)
      × HasBudget config.adjudication probes remaining
      × (lacks_evidence cell ≡ true)
      × (1 ≤ probes))
  unfolding adjudicate
  marker-not_assessable = (λ h. ground arith, λ h. ground arith)

  -- The gap marker is level_zero exactly when the competency is not demonstrated and its latest
  -- level is 0; gap_budget_exhausted exactly when neither holds and the probe or the time budget
  -- has no room; gap_not_assessable exactly when neither holds, the budgets have room, and an
  -- empty assessment has been met after a probe.
  pub gap_table :
      ((result_marker ≡ some GapMarker.level_zero)
        ↔ ((¬ Demonstrates cell target config.adjudication.confidence_min) × LatestIsZero cell))
      × ((result_marker ≡ some GapMarker.gap_budget_exhausted) ↔ (
          (¬ Demonstrates cell target config.adjudication.confidence_min)
          × (¬ LatestIsZero cell)
          × (¬ HasBudget config.adjudication probes remaining)))
      × ((result_marker ≡ some GapMarker.gap_not_assessable) ↔ (
          (¬ Demonstrates cell target config.adjudication.confidence_min)
          × (¬ LatestIsZero cell)
          × HasBudget config.adjudication probes remaining
          × NotAssessable cell
          × (1 ≤ probes)))
  gap_table =
      let (dem_to, dem_from) = has_answered_iff cell target config.adjudication in
      let (zero_to, zero_from) = is_level_zero_iff cell in
      let (lack_to, lack_from) = lacks_evidence_iff cell in
      (
        (
          λ h. let (a, z) = marker-level_zero.0 h in (λ d. cc (dem_from d), zero_to z),
          λ h. marker-level_zero.1 (false_of_not (λ e. h.0 (dem_to e)), zero_from h.1),
        ),
        (
          λ h.
              let (a, z, b) = marker-budget.0 h in (λ d. cc (dem_from d), λ d. cc (zero_from d), b),
          λ h.
              let (a, z, b) = h in
              marker-budget.1
                (false_of_not (λ e. a (dem_to e)), false_of_not (λ e. z (zero_to e)), b),
        ),
        (
          λ h.
              let (a, z, room, l, n) = marker-not_assessable.0 h in
              (λ d. cc (dem_from d), λ d. cc (zero_from d), room, lack_to l, n),
          λ h.
              let (a, z, room, l, n) = h in
              marker-not_assessable.1 (
                false_of_not (λ e. a (dem_to e)),
                false_of_not (λ e. z (zero_to e)),
                room,
                lack_from l,
                n,
              ),
        ),
      )
