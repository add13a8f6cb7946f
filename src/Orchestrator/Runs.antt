-- ===== src/Orchestrator/Runs.antt =====
-- A property of the state that every transition keeps is kept by every run.
use tech_screen_ai.Prelude.{List, [], ◌∷◌, ◌++◌}
use tech_screen_ai.Orchestrator.Command.{Command}
use tech_screen_ai.Orchestrator.Config.{OrchestratorConfig}
use tech_screen_ai.Orchestrator.Event.{Event}
use tech_screen_ai.Orchestrator.Externals.{Externals}
use tech_screen_ai.Orchestrator.State.{SessionState, Result, ok, err, Outcome, ◌>>=◌}
use tech_screen_ai.Orchestrator.Transition.{transition, run}

-- What is returned satisfies the predicate, and something is returned.
abbrev pub Returns {ℓ} : {A : Type ℓ} → (A → Type 0) → Result A → Type 0
Returns P (ok a) = P a
Returns P (err e) = ⊥

-- If the run returns, its state satisfies the predicate.
abbrev pub OnReturn : (SessionState → Type 0) → Result Outcome → Type 0
OnReturn P (ok o) = P o.0
OnReturn P (err e) = Unit

-- The run returns, and its state satisfies the predicate.
abbrev pub Reaches : (SessionState → Type 0) → Result Outcome → Type 0
Reaches P = Returns (λ (o : Outcome). P o.0)

module _ (P : SessionState → Type 0) where
  relabelled-OnReturn :
      (before : List Command) (r : Result Outcome)
      → OnReturn P r
      → OnReturn P (r >>= λ l. ok (l.0, before ++ l.1))
  relabelled-OnReturn before (ok l) h = h
  relabelled-OnReturn before (err e) h = tt

  then_run-OnReturn :
      (r : Result Outcome) (f : SessionState → Result Outcome)
      → OnReturn P r
      → ((s : SessionState) → P s → OnReturn P (f s))
      → OnReturn P (r >>= λ o. f o.0 >>= λ l. ok (l.0, o.1 ++ l.1))
  then_run-OnReturn (ok o) f h g = relabelled-OnReturn o.1 (f o.0) (g o.0 h)
  then_run-OnReturn (err e) f h g = tt

  relabelled-Reaches :
      (before : List Command) (r : Result Outcome)
      → Reaches P r
      → Reaches P (r >>= λ l. ok (l.0, before ++ l.1))
  relabelled-Reaches before (ok l) h = h
  relabelled-Reaches before (err e) h = h

  then_run-Reaches :
      (r : Result Outcome) (f : SessionState → Result Outcome)
      → Reaches P r
      → ((s : SessionState) → P s → Reaches P (f s))
      → Reaches P (r >>= λ o. f o.0 >>= λ l. ok (l.0, o.1 ++ l.1))
  then_run-Reaches (ok o) f h g = relabelled-Reaches o.1 (f o.0) (g o.0 h)
  then_run-Reaches (err e) f h g = h

module _ (lib : Externals) (config : OrchestratorConfig) (P : SessionState → Type 0) where
  pub run-OnReturn :
      ((s : SessionState) (e : Event) → P s → OnReturn P (transition lib config s e))
      → (s : SessionState) (events : List Event) → P s
      → OnReturn P (run lib config s events)
  unfolding run
  run-OnReturn step s [] h = h
  run-OnReturn step s (e ∷ events) h =
      then_run-OnReturn P (transition lib config s e) (λ t. run lib config t events) (step s e h)
        (λ t ht. run-OnReturn step t events ht)

  pub run-Reaches :
      ((s : SessionState) (e : Event) → P s → Reaches P (transition lib config s e))
      → (s : SessionState) (events : List Event) → P s
      → Reaches P (run lib config s events)
  unfolding run
  run-Reaches step s [] h = h
  run-Reaches step s (e ∷ events) h =
      then_run-Reaches P (transition lib config s e) (λ t. run lib config t events) (step s e h)
        (λ t ht. run-Reaches step t events ht)
