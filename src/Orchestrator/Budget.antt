-- ===== src/Orchestrator/Budget.antt =====
-- The budget predicates of app/backend/orchestrator/state_machine.py, and the test for the reply
-- that is awaited.
use tech_screen_ai.Prelude.{ℕ, ltb, if◌then◌else◌, Bool, true, false, none, some, ◌==◌, string_eq}
use tech_screen_ai.Prelude.Int.{pos, sub_ℕ, ltb_ℤ, leb_ℤ}
use tech_screen_ai.Orchestrator.Command.{Uuid, turn_id}
use tech_screen_ai.Orchestrator.Config.{OrchestratorConfig}
use tech_screen_ai.Orchestrator.Moves.{minutes}
use tech_screen_ai.Orchestrator.Plan.{timedelta_bound}
use tech_screen_ai.Orchestrator.State.{Time, SessionState, StateError, Result, ok, err}

-- A comparison with `timedelta(minutes=n)`, which raises where n is too large.
abbrev pub compared : ℕ → Bool → Result Bool
compared n answer = if ltb n timedelta_bound then ok answer else err StateError.overflow

unfoldable pub answers_pending_command : SessionState → Uuid → Bool
answers_pending_command state id = elim state.pending_command [
  | none ↦ false
  | some command ↦ turn_id command == id
]

unfoldable pub candidate_timed_out : SessionState → Time → OrchestratorConfig → Result Bool
candidate_timed_out state now config = elim state.last_candidate_activity [
  | none ↦ ok false
  | some last ↦
      compared config.timing.candidate_timeout_minutes
        (ltb_ℤ (pos (minutes config.timing.candidate_timeout_minutes)) (sub_ℕ now last))
]

unfoldable pub session_budget_exhausted : SessionState → Time → Result Bool
session_budget_exhausted state now = elim state.session_started_at [
  | none ↦ ok false
  | some started ↦ elim state.plan [
    | none ↦ ok false
    | some plan ↦
        compared plan.session_max_minutes
          (leb_ℤ (pos (minutes plan.session_max_minutes)) (sub_ℕ now started))
  ]
]

unfoldable pub qa_budget_exhausted : SessionState → Time → Result Bool
qa_budget_exhausted state now = elim state.qa_started_at [
  | none ↦ ok true
  | some started ↦ elim state.plan [
    | none ↦ ok true
    | some plan ↦
        compared plan.qa_minutes (leb_ℤ (pos (minutes plan.qa_minutes)) (sub_ℕ now started))
  ]
]
