-- ===== src/Orchestrator/Progress.antt =====
-- A session makes progress: the number of answers that it has assessed is bounded by its plan.
pub mod Steps
pub mod Runs
use tech_screen_ai.Prelude.{
  ℕ, zero, suc, ◌+◌, ◌-◌, ◌≤◌, ◌<◌, ◌≡◌, refl, true, false, Option, none, some, List, [], ◌∷◌, ◌++◌,
  length, get_elem?, arith, String,
}
use tech_screen_ai.Prelude.Int.{ℤ}
use tech_screen_ai.Orchestrator.Command.{Uuid, GapMarker, Command}
use tech_screen_ai.Orchestrator.Config.{OrchestratorConfig}
use tech_screen_ai.Orchestrator.Plan.{
  PlannedCompetency, PlanSnapshot, IsPlan, IsPlannedCompetency, competency,
}
use tech_screen_ai.Orchestrator.State.{
  Phase, TechState, SessionState, Result, ok, err, Outcome, Time, ◌>>=◌,
}

-- The number of `RunAssessor` commands.
abbrev pub assessor_count : List Command → ℕ
assessor_count [] = 0
assessor_count (Command.run_assessor id node ∷ cs) = suc (assessor_count cs)
assessor_count (_ ∷ cs) = assessor_count cs

-- The answers that one competency can take: one for each seed, one for each probe.
abbrev pub workload : ℕ → PlannedCompetency → ℕ
workload probes c = length c.seed_questions_uk + probes

-- The answers that the competencies from `i` on can take.
unfoldable pub work_from : ℕ → List PlannedCompetency → ℕ → ℕ
work_from probes [] i = 0
work_from probes (c ∷ cs) zero = workload probes c + work_from probes cs zero
work_from probes (c ∷ cs) (suc i) = work_from probes cs i

pub work_from-step :
    (probes : ℕ) (cs : List PlannedCompetency) (i : ℕ) {c : PlannedCompetency}
    → get_elem? cs i ≡ some c
    → work_from probes cs i ≡ workload probes c + work_from probes cs (suc i)
unfolding work_from
work_from-step probes [] i e = absurd (ground arith)
work_from-step probes (c ∷ []) zero e = ground arith
work_from-step probes (c ∷ d ∷ cs) zero e = ground arith
work_from-step probes (c ∷ cs) (suc i) e = work_from-step probes cs i e

-- What is left of the current competency.
abbrev here_left : ℕ → TechState → Option PlannedCompetency → ℕ
here_left probes t none = 0
here_left probes t (some c) =
    suc ((length c.seed_questions_uk - suc t.seed_index) + (probes - t.probes_used))

-- The answers that the session can still have assessed under the plan `p`.
abbrev pub potential_at : ℕ → PlanSnapshot → Phase → TechState → ℕ
potential_at probes p Phase.created t = work_from probes p.competencies 0
potential_at probes p Phase.intro t = work_from probes p.competencies 0
potential_at probes p Phase.tech t =
    here_left probes t (get_elem? p.competencies t.competency_index)
    + work_from probes p.competencies (suc t.competency_index)
potential_at probes p _ t = 0

abbrev pub potential : OrchestratorConfig → PlanSnapshot → SessionState → ℕ
potential config p s = potential_at config.adjudication.max_probes_per_competency p s.phase s.tech

-- The assessments that a transition schedules are paid from the potential.
abbrev pub Spends : OrchestratorConfig → PlanSnapshot → SessionState → Result Outcome → Type 0
Spends config p s (ok o) =
    (o.0.plan ≡ some p) × (assessor_count o.1 + potential config p o.0 ≤ potential config p s)
Spends config p s (err _) = Unit

pub assessor_count-append :
    (cs ds : List Command) → assessor_count (cs ++ ds) ≡ assessor_count cs + assessor_count ds
assessor_count-append [] ds = omega arith
assessor_count-append (Command.run_assessor id node ∷ cs) ds =
    omega (arith, assessor_count-append cs ds)
assessor_count-append (_ ∷ cs) ds = assessor_count-append cs ds
