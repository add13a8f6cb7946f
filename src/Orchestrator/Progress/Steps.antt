-- ===== src/Orchestrator/Progress/Steps.antt =====
-- Each transition pays for the assessment that it schedules.
use tech_screen_ai.Prelude.{
  ℕ, zero, suc, ◌+◌, ◌≤◌, ◌<◌, ◌≡◌, refl, true, Option, none, some, List, [], ◌∷◌, length,
  get_elem?, arith, String, All-get_elem?, is_some, get_elem?-some_of_lt,
}
use tech_screen_ai.Prelude.Int.{ℤ}
use tech_screen_ai.Orchestrator.Adjudication.{Verdict}
use tech_screen_ai.Orchestrator.Command.{Uuid, GapMarker, Command}
use tech_screen_ai.Orchestrator.Config.{OrchestratorConfig}
use tech_screen_ai.Orchestrator.Event.{Event}
use tech_screen_ai.Orchestrator.Externals.{Externals}
use tech_screen_ai.Orchestrator.Plan.{
  PlannedCompetency, PlanSnapshot, IsPlan, IsPlannedCompetency, competency,
}
use tech_screen_ai.Orchestrator.State.{Phase, TechState, SessionState, Result, ok, err, Time}
use tech_screen_ai.Orchestrator.Progress.{
  Spends, potential, potential_at, work_from, work_from-step, assessor_count,
}
use tech_screen_ai.Orchestrator.Invariant.{IsSound}
use tech_screen_ai.Orchestrator.Invariant.Steps.{
  on_IsPlan, fits_of_IsPlan, clarify_room, on_tech_candidate_turn-eq-route,
}
use tech_screen_ai.Orchestrator.Moves.{time_left}
use tech_screen_ai.Orchestrator.TechTurn.{
  on_tech_candidate_turn, leave_to, route, mark_gap, schedule, adjudicated, enter_next,
}
use tech_screen_ai.Orchestrator.Handlers.{
  on_session_started, on_candidate_turn, enter_first, on_intro_candidate_turn, on_qa_candidate_turn,
  on_timer_tick, on_interviewer_reply, on_interviewer_failed, on_assessment_completed,
  on_assessment_failed, mark_failed, on_reconnected,
}
use tech_screen_ai.Orchestrator.Transition.{live_transition, transition}

seed_lt : (xs : List String) (i : ℕ) → is_some (get_elem? xs i) ≡ true → i < length xs
seed_lt [] i h = cc
seed_lt (x ∷ xs) zero h = omega arith
seed_lt (x ∷ xs) (suc i) h = omega (arith, seed_lt xs i h)

-- The next competency costs what was kept for it.
next_cost :
    (probes : ℕ) (p : PlanSnapshot) (tech : TechState) (now : Time) {following : PlannedCompetency}
    → get_elem? p.competencies (tech.competency_index + 1) ≡ some following
    → 1 ≤ length following.seed_questions_uk
    → potential_at probes p Phase.tech (enter_next tech now)
      ≤ work_from probes p.competencies (suc tech.competency_index)
next_cost probes p tech now {following} e h =
    rw e (ground (arith, work_from-step probes p.competencies (tech.competency_index + 1) e))

-- The first competency too.
first_cost :
    (probes : ℕ) (p : PlanSnapshot) (tech : TechState) (now : Time)
    → IsPlan p
    → potential_at probes p Phase.tech (enter_first tech now) ≤ work_from probes p.competencies 0
first_cost probes p tech now h =
    let (c, e) = get_elem?-some_of_lt p.competencies 0 h.competencies in
    let fits = All-get_elem? IsPlannedCompetency p.competencies 0 h.each_competency e in
    rw e (ground (arith, work_from-step probes p.competencies 0 e, fits.seed_questions_uk))

module _ (lib : Externals) (config : OrchestratorConfig) (s : SessionState) (p : PlanSnapshot)
    (plan : s.plan ≡ some p) (valid : IsPlan p) (in_tech : s.phase ≡ Phase.tech) where
  abbrev probes : ℕ
  probes = config.adjudication.max_probes_per_competency

  -- The next competency costs no more than what was kept for the competencies after this one.
  abbrev Leaves : ℕ → Result (SessionState × Command) → Type 0
  Leaves index (ok o) =
      (o.0.plan ≡ some p)
      × (assessor_count (o.1 ∷ []) ≡ 0)
      × (potential config p o.0 ≤ work_from probes p.competencies (suc index))
  Leaves index (err _) = Unit

  leave_to-Leaves :
      (tech : TechState) (c : PlannedCompetency) (verdict : Verdict) (now : Time)
      (next : Option PlannedCompetency)
      → get_elem? p.competencies (tech.competency_index + 1) ≡ next
      → Leaves tech.competency_index (leave_to lib s tech c verdict now next)
  unfolding leave_to
  leave_to-Leaves tech c verdict now none e = ground arith
  leave_to-Leaves tech c verdict now (some following) e =
      let fits =
        All-get_elem? IsPlannedCompetency p.competencies (tech.competency_index + 1)
          valid.each_competency e in
      ground (arith, next_cost probes p tech now e fits.seed_questions_uk)

  -- A TECH turn on the competency `c` pays for its one assessment.
  route-Spends :
      (tech : TechState) (c : PlannedCompetency) (id : Uuid) (remaining : ℤ) (now : Time)
      (verdict : Verdict) (marker : Option GapMarker)
      → get_elem? p.competencies tech.competency_index ≡ some c
      → tech.competency_index ≡ s.tech.competency_index
      → tech.seed_index ≡ s.tech.seed_index
      → tech.probes_used ≡ s.tech.probes_used
      → (verdict ≡ Verdict.clarify → tech.probes_used < probes)
      → Spends config p s (route lib s tech p c id remaining now verdict marker)
  unfolding route mark_gap
  route-Spends tech c id remaining now Verdict.clarify marker e ei es eu room =
      ground (arith, room refl, ei)
  route-Spends tech c id remaining now Verdict.nothing marker e ei es eu room = ground (
    arith,
    leave_to-Leaves (mark_gap tech c marker) c Verdict.nothing now
        (get_elem? p.competencies ((mark_gap tech c marker).competency_index + 1)) refl,
  )
  route-Spends tech c id remaining now Verdict.answered marker e ei es eu room = ground (
    arith,
    leave_to-Leaves tech c Verdict.answered now
        (get_elem? p.competencies (tech.competency_index + 1)) refl,
    seed_lt c.seed_questions_uk (tech.seed_index + 1),
    ei,
  )

module _ (lib : Externals) (config : OrchestratorConfig) (s : SessionState) (h : IsSound config s)
    (p : PlanSnapshot) (plan : s.plan ≡ some p) where
  on_tech_candidate_turn-Spends :
      (id : Uuid) (now : Time)
      → s.phase ≡ Phase.tech
      → Spends config p s (on_tech_candidate_turn lib s id now config)
  unfolding competency
  on_tech_candidate_turn-Spends id now e =
      let (q, eq_, hq, c, ec) = on_IsPlan s.plan s.tech.competency_index (ground arith) in
      let tech = schedule s.tech id c in
      let a = adjudicated tech c (time_left c tech.competency_started_at now) config in
      let same : q ≡ p = cc in
      rw
        (on_tech_candidate_turn-eq-route lib config s id now q c eq_ ec
          (fits_of_IsPlan q s.tech.competency_index c hq ec))
        (unfold schedule in
          rw same (
            route-Spends lib config s p plan (rw same at hq) e tech c id
              (time_left c tech.competency_started_at now) now a.verdict a.gap_marker
              (rw same at ec) refl refl refl
              (clarify_room tech c (time_left c tech.competency_started_at now) config)))

  live_transition-Spends : (e : Event) → Spends config p s (live_transition lib config s e)
  unfolding live_transition on_session_started on_candidate_turn on_intro_candidate_turn
      on_qa_candidate_turn on_timer_tick on_interviewer_reply on_interviewer_failed
      on_assessment_completed on_assessment_failed mark_failed on_reconnected
  live_transition-Spends (Event.session_started now) = ground arith
  live_transition-Spends (Event.candidate_turn_received id text now) = ground (
    arith,
    on_tech_candidate_turn-Spends id now,
    first_cost config.adjudication.max_probes_per_competency p s.tech now,
  )
  live_transition-Spends (Event.interviewer_reply_ready id output now) = ground arith
  live_transition-Spends (Event.interviewer_failed id kind now) = ground arith
  live_transition-Spends (Event.assessment_completed id output now) = ground arith
  live_transition-Spends (Event.assessment_failed id kind now) = ground arith
  live_transition-Spends (Event.timer_tick now) = ground arith
  live_transition-Spends (Event.reconnected now) = ground arith
  live_transition-Spends (Event.operator_abort reason now) = ground arith

  pub transition-Spends : (e : Event) → Spends config p s (transition lib config s e)
  unfolding transition
  transition-Spends e = ground (arith, live_transition-Spends e)
