-- ===== src/Orchestrator/Progress/Runs.antt =====
-- Over a whole run, the assessments scheduled are at most the answers that the plan has room for.
use tech_screen_ai.Prelude.{◌≡◌, some, List, [], ◌∷◌, ◌++◌, arith}
use tech_screen_ai.Orchestrator.Config.{OrchestratorConfig}
use tech_screen_ai.Orchestrator.Event.{Event}
use tech_screen_ai.Orchestrator.Externals.{Externals, Validates}
use tech_screen_ai.Orchestrator.Plan.{PlanSnapshot}
use tech_screen_ai.Orchestrator.State.{SessionState, Result, ok, err, Outcome, ◌>>=◌}
use tech_screen_ai.Orchestrator.Transition.{transition, run}
use tech_screen_ai.Orchestrator.Invariant.{Keeps, IsSound}
use tech_screen_ai.Orchestrator.Invariant.Runs.{transition-IsSound}
use tech_screen_ai.Orchestrator.Progress.{Spends, assessor_count-append}
use tech_screen_ai.Orchestrator.Progress.Steps.{transition-Spends}

module _ (config : OrchestratorConfig) (p : PlanSnapshot) where
  then_run-Spends :
      (s : SessionState) (r : Result Outcome) (f : SessionState → Result Outcome)
      → Keeps config r
      → Spends config p s r
      → ((t : SessionState) → IsSound config t → t.plan ≡ some p → Spends config p t (f t))
      → Spends config p s (r >>= λ o. f o.0 >>= λ l. ok (l.0, o.1 ++ l.1))
  then_run-Spends s (ok o) f k h g = later (f o.0) (g o.0 k h.0)
    where
      later :
          (l : Result Outcome)
          → Spends config p o.0 l
          → Spends config p s (l >>= λ l. ok (l.0, o.1 ++ l.1))
      later (ok l) spent = (spent.0, omega (arith, assessor_count-append o.1 l.1, h.1, spent.1))
      later (err e) spent = tt
  then_run-Spends s (err e) f k h g = tt

module _ (lib : Externals) (config : OrchestratorConfig) (v : Validates lib)
    (p : PlanSnapshot) where
  -- From a sound state with a plan, over any events, the RunAssessor commands issued and the
  -- potential that is left (the seeds and probes that the plan still has room for) are together at
  -- most the potential of the first state, and the plan stays. pydantic must return only plans
  -- within the declared bounds, whose minutes fit in a timedelta or a float as the code converts
  -- them.
  pub run-Spends :
      (s : SessionState) (events : List Event)
      → IsSound config s
      → s.plan ≡ some p
      → Spends config p s (run lib config s events)
  unfolding run
  run-Spends s [] h e = (e, omega arith)
  run-Spends s (event ∷ events) h e =
      then_run-Spends config p s (transition lib config s event) (λ t. run lib config t events)
        (transition-IsSound lib config v s event h) (transition-Spends lib config s h p e event)
        (λ t ht et. run-Spends t events ht et)
