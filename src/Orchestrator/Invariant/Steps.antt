-- ===== src/Orchestrator/Invariant/Steps.antt =====
-- The handlers that issue a new turn keep the invariant and raise nothing: the plan and the
-- competency that they look up are there.
use tech_screen_ai.Prelude.{
  ℕ, ◌+◌, ◌<◌, ◌≡◌, true, ltb, Option, none, some, refl, length, arith, All-get_elem?, get_elem?,
  lt_of_get_elem?-some, get_elem?-some_of_lt,
}
use tech_screen_ai.Prelude.Int.{ℤ}
use tech_screen_ai.Orchestrator.Runs.{Returns}
use tech_screen_ai.Orchestrator.Adjudication.{Verdict}
use tech_screen_ai.Orchestrator.Command.{Uuid, GapMarker, Command}
use tech_screen_ai.Orchestrator.Config.{OrchestratorConfig}
use tech_screen_ai.Orchestrator.Context.{first_seed_context, advance_context}
use tech_screen_ai.Orchestrator.Externals.{Externals, Validates}
use tech_screen_ai.Orchestrator.Plan.{
  float_bound, PlannedCompetency, PlanSnapshot, IsPlan, IsPlannedCompetency, competency,
}
use tech_screen_ai.Orchestrator.State.{Phase, TechState, SessionState, Time}
use tech_screen_ai.Orchestrator.Moves.{time_left, seconds_remaining}
use tech_screen_ai.Orchestrator.Handlers.{
  on_session_started, on_intro_candidate_turn, on_qa_candidate_turn, on_timer_tick,
  on_candidate_turn,
}
use tech_screen_ai.Orchestrator.TechTurn.{
  on_tech_candidate_turn, leave_competency, route, adjudicated, mark_gap, schedule,
}
use tech_screen_ai.Orchestrator.Invariant.{Keeps, OnCompetency, IsSound}

abbrev Holds {ℓ} : {A : Type ℓ} → (A → Type 0) → Option A → Type 0
Holds P none = Unit
Holds P (some a) = P a

Holds-of_eq {ℓ} :
    {A : Type ℓ} (P : A → Type 0) (o : Option A) → ((a : A) → o ≡ some a → P a) → Holds P o
Holds-of_eq P none h = tt
Holds-of_eq P (some a) h = h a refl

-- A competency of a valid plan is valid.
competency-ok : (p : PlanSnapshot) (i : ℕ) → IsPlan p → Holds IsPlannedCompetency (competency p i)
unfolding competency
competency-ok p i h =
    Holds-of_eq IsPlannedCompetency (get_elem? p.competencies i)
      λ c e. All-get_elem? IsPlannedCompetency p.competencies i h.each_competency e

competency-lt : (p : PlanSnapshot) (i : ℕ) → Holds (λ _. i < length p.competencies) (competency p i)
unfolding competency
competency-lt p i =
    Holds-of_eq (λ _. i < length p.competencies) (get_elem? p.competencies i)
      λ c e. lt_of_get_elem?-some p.competencies i e

-- A plan's competencies have a first seed question.
first_seed_context-ok :
    (c : PlannedCompetency) → IsPlannedCompetency c → Returns (λ _. Unit {0}) (first_seed_context c)
unfolding first_seed_context
first_seed_context-ok c h = grind arith

advance_context-ok :
    (closing : Option PlannedCompetency) (c : PlannedCompetency)
    → IsPlannedCompetency c
    → Returns (λ _. Unit {0}) (advance_context closing c)
unfolding advance_context
advance_context-ok closing c h = grind arith

pub on_IsPlan :
    (plan : Option PlanSnapshot) (i : ℕ)
    → OnCompetency plan i
    → (p : PlanSnapshot) × (plan ≡ some p)
      × IsPlan p
      × (c : PlannedCompetency) × (competency p i ≡ some c)
unfolding competency
on_IsPlan none i h = absurd h
on_IsPlan (some p) i h =
    let (c, e) = get_elem?-some_of_lt p.competencies i h.1 in (p, refl, h.0, c, e)

pub fits_of_IsPlan :
    (p : PlanSnapshot) (i : ℕ) (c : PlannedCompetency)
    → IsPlan p
    → competency p i ≡ some c
    → ltb c.minutes float_bound ≡ true
unfolding competency
fits_of_IsPlan p i c h e =
    let found : IsPlannedCompetency c =
      All-get_elem? IsPlannedCompetency p.competencies i h.each_competency e in
    found.minutes_fit

-- In a TECH turn the lookups succeed, and the adjudication is routed.
pub on_tech_candidate_turn-eq-route :
    (lib : Externals) (config : OrchestratorConfig) (s : SessionState) (id : Uuid) (now : Time)
    (p : PlanSnapshot) (c : PlannedCompetency)
    → s.plan ≡ some p
    → competency p s.tech.competency_index ≡ some c
    → ltb c.minutes float_bound ≡ true
    → on_tech_candidate_turn lib s id now config ≡ (
        let tech = schedule s.tech id c in
        let remaining = time_left c tech.competency_started_at now in
        let a = adjudicated tech c remaining config in
        route lib s tech p c id remaining now a.verdict a.gap_marker)
unfolding on_tech_candidate_turn seconds_remaining
on_tech_candidate_turn-eq-route lib config s id now p c ep ec fits = ground arith

-- A probe is only asked for while the budget has one left.
pub clarify_room :
    (tech : TechState) (c : PlannedCompetency) (remaining : ℤ) (config : OrchestratorConfig)
    → (adjudicated tech c remaining config).verdict ≡ Verdict.clarify
    → tech.probes_used < config.adjudication.max_probes_per_competency
unfolding adjudicated
clarify_room tech c remaining config h = ground arith

module _ (lib : Externals) (config : OrchestratorConfig) (s : SessionState)
    (h : IsSound config s) where
  pub on_session_started-IsSound :
      (now : Time)
      → Validates lib
      → s.phase ≡ Phase.created
      → IsSound config (on_session_started lib s now).0
  unfolding on_session_started
  on_session_started-IsSound now v e =
      ground (arith, Holds-of_eq IsPlan (lib.model_validate s.plan_input) (v s.plan_input))

  pub on_intro_candidate_turn-IsSound :
      (now : Time) → s.phase ≡ Phase.intro → Keeps config (on_intro_candidate_turn lib s now)
  unfolding on_intro_candidate_turn
  on_intro_candidate_turn-IsSound now e = grind arith

  pub on_qa_candidate_turn-IsSound :
      (now : Time) → s.phase ≡ Phase.qa → Keeps config (on_qa_candidate_turn lib s now)
  unfolding on_qa_candidate_turn
  on_qa_candidate_turn-IsSound now e = ground arith

  pub on_timer_tick-IsSound : (now : Time) → Keeps config (on_timer_tick lib s now config)
  unfolding on_timer_tick
  on_timer_tick-IsSound now = ground arith

  leave_competency-IsSound :
      (tech : TechState) (p : PlanSnapshot) (c : PlannedCompetency) (verdict : Verdict) (now : Time)
      → s.phase ≡ Phase.tech
      → s.plan ≡ some p
      → IsPlan p
      → tech.competency_started_at ≡ s.tech.competency_started_at
      → tech.probes_used ≡ s.tech.probes_used
      → Returns
          (λ (o : SessionState × Command). IsSound config o.0)
          (leave_competency lib s tech p c verdict now)
  unfolding leave_competency
  leave_competency-IsSound tech p c verdict now e ep hp es eu = ground (
    arith,
    competency-ok p (tech.competency_index + 1) hp,
    competency-lt p (tech.competency_index + 1),
  )

  route-IsSound :
      (tech : TechState) (p : PlanSnapshot) (c : PlannedCompetency) (id : Uuid) (remaining : ℤ)
      (now : Time) (verdict : Verdict) (marker : Option GapMarker)
      → s.phase ≡ Phase.tech
      → s.plan ≡ some p
      → IsPlan p
      → tech.competency_started_at ≡ s.tech.competency_started_at
      → tech.competency_index ≡ s.tech.competency_index
      → tech.probes_used ≡ s.tech.probes_used
      → (verdict ≡ Verdict.clarify
          → tech.probes_used < config.adjudication.max_probes_per_competency)
      → Keeps config (route lib s tech p c id remaining now verdict marker)
  unfolding route
  route-IsSound tech p c id remaining now Verdict.clarify marker e ep hp es ei eu room =
      ground (arith, room refl)
  route-IsSound tech p c id remaining now Verdict.nothing marker e ep hp es ei eu room =
      ground (arith, leave_competency-IsSound (mark_gap tech c marker) p c Verdict.nothing now)
  route-IsSound tech p c id remaining now Verdict.answered marker e ep hp es ei eu room =
      ground (arith, leave_competency-IsSound tech p c Verdict.answered now)

  on_tech_candidate_turn-IsSound :
      (id : Uuid) (now : Time)
      → s.phase ≡ Phase.tech
      → Keeps config (on_tech_candidate_turn lib s id now config)
  on_tech_candidate_turn-IsSound id now e =
      let (p, ep, hp, c, ec) = on_IsPlan s.plan s.tech.competency_index (ground arith) in
      let tech = schedule s.tech id c in
      let remaining = time_left c tech.competency_started_at now in
      let a = adjudicated tech c remaining config in
      rw
        (on_tech_candidate_turn-eq-route lib config s id now p c ep ec
          (fits_of_IsPlan p s.tech.competency_index c hp ec))
        (unfold schedule in
          route-IsSound tech p c id remaining now a.verdict a.gap_marker e ep hp refl refl refl
            (clarify_room tech c remaining config))

  pub on_candidate_turn-IsSound :
      (id : Uuid) (now : Time) → Keeps config (on_candidate_turn lib s id now config)
  unfolding on_candidate_turn
  on_candidate_turn-IsSound id now = ground (
    arith,
    on_intro_candidate_turn-IsSound now,
    on_tech_candidate_turn-IsSound id now,
    on_qa_candidate_turn-IsSound now,
  )
