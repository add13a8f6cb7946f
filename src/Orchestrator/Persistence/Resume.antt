-- ===== src/Orchestrator/Persistence/Resume.antt =====
-- A session that is saved after a transition resumes in exactly that state.
use tech_screen_ai.Prelude.{ℕ, ◌≡◌, refl, Option, some, List, nat_eq_iff, arith, string_eq}
use tech_screen_ai.Prelude.Dict.{lookup}
use tech_screen_ai.Json.{Json, Fields}
use tech_screen_ai.Orchestrator.Command.{Uuid}
use tech_screen_ai.Orchestrator.Config.{OrchestratorConfig}
use tech_screen_ai.Orchestrator.Event.{Event}
use tech_screen_ai.Orchestrator.Externals.{Externals}
use tech_screen_ai.Orchestrator.Handlers.{
  on_session_started, on_candidate_turn, on_intro_candidate_turn, on_qa_candidate_turn,
  on_timer_tick, on_interviewer_reply, on_interviewer_failed, on_assessment_completed,
  on_assessment_failed, on_reconnected,
}
use tech_screen_ai.Orchestrator.Persistence.{
  Codec, Database, ok as stored, load_session_state, save_session_state,
}
use tech_screen_ai.Orchestrator.Persistence.RoundTrip.{IsLossless, load-save}
use tech_screen_ai.Orchestrator.Runs.{OnReturn, run-OnReturn}
use tech_screen_ai.Orchestrator.State.{SessionState, Result, ok, err, Outcome, initial_state}
use tech_screen_ai.Orchestrator.TechTurn.{on_tech_candidate_turn, leave_competency, route}
use tech_screen_ai.Orchestrator.Transition.{live_transition, transition, run}

-- Saving the outcome's state into the row of `id` succeeds, and loading gives that state back.
abbrev pub Resumes : Codec → Database → Uuid → ℕ → SessionState → Type 0
Resumes codec db id expected s =
    (after : Database) × (save_session_state codec db id s ≡ stored after)
    × (load_session_state codec after id expected ≡ stored (some s))

abbrev pub HasVersion : ℕ → SessionState → Type 0
HasVersion n s = s.state_schema_version ≡ n

Resumes-of_version :
    (codec : Codec) (db : Database) (id : Uuid) (column : Option Json) (s : SessionState)
    (expected : ℕ)
    → IsLossless codec s
    → lookup id db ≡ some column
    → HasVersion expected s
    → Resumes codec db id expected s
Resumes-of_version codec db id column s expected h row e =
    let (after, saves, loads, others) = load-save codec db id column s expected h row in
    (after, saves, rw (loads, (nat_eq_iff s.state_schema_version expected).1 e) refl)

OnReturn-both :
    {P Q R : SessionState → Type 0} (r : Result Outcome)
    → ((s : SessionState) → P s → Q s → R s)
    → OnReturn P r
    → OnReturn Q r
    → OnReturn R r
OnReturn-both (ok o) f h k = f o.0 h k
OnReturn-both (err e) f h k = tt

module _ (lib : Externals) (config : OrchestratorConfig) (n : ℕ) where
  live_transition-HasVersion :
      (s : SessionState) (e : Event)
      → HasVersion n s
      → OnReturn (HasVersion n) (live_transition lib config s e)
  unfolding live_transition on_session_started on_candidate_turn on_intro_candidate_turn
      on_qa_candidate_turn on_tech_candidate_turn leave_competency route on_timer_tick
      on_interviewer_reply on_interviewer_failed on_assessment_completed on_assessment_failed
      on_reconnected
  live_transition-HasVersion s e h = ground arith

  pub transition-HasVersion :
      (s : SessionState) (e : Event)
      → HasVersion n s
      → OnReturn (HasVersion n) (transition lib config s e)
  unfolding transition
  transition-HasVersion s e h = ground (arith, live_transition-HasVersion s e h)

-- Whatever state a new session has come to, saving it into its row succeeds and loading it at the
-- configured schema version gives exactly that state, if pydantic and JSONB lose nothing of it.
pub run-Resumes :
    (lib : Externals) (config : OrchestratorConfig) (codec : Codec) (db : Database) (id : Uuid)
    (column : Option Json) (plan_input : Fields) (events : List Event)
    → OnReturn (IsLossless codec) (run lib config (initial_state id plan_input config) events)
    → lookup id db ≡ some column
    → OnReturn
        (Resumes codec db id config.state_schema_version)
        (run lib config (initial_state id plan_input config) events)
unfolding initial_state
run-Resumes lib config codec db id column plan_input events h row =
    OnReturn-both (run lib config (initial_state id plan_input config) events)
      (λ s k e. Resumes-of_version codec db id column s config.state_schema_version k row e) h
      (run-OnReturn lib config (HasVersion config.state_schema_version)
        (transition-HasVersion lib config config.state_schema_version)
        (initial_state id plan_input config) events refl)
