-- ===== src/Session/View.antt =====
-- What app/backend/services/dev_session.py answers with: the view of a session.
use tech_screen_ai.Prelude.{
  ℕ, String, Bool, true, false, Option, none, some, List, [], ◌∷◌, if◌then◌else◌, string_eq,
}
use tech_screen_ai.Orchestrator.Command.{Uuid}
use tech_screen_ai.Orchestrator.State.{Phase, Awaiting, AbortReason, Coverage}
use tech_screen_ai.Session.Working.{Working, TranscriptEntry, is_interviewer}
use tech_screen_ai.Session.World.{Wiring, ShellError, M, ◌>>=◌, pure, raise, ask_with}

pub record SessionView : Type 0 where
  pub session_id : Uuid
  pub phase : Phase
  pub abort_reason : Option AbortReason
  pub awaiting : Option Awaiting
  pub competency_index : Option ℕ
  pub coverage : Coverage
  pub flagged_for_review : Bool
  pub cost_usd_total : ℕ
  pub transcript : List TranscriptEntry

pub record TurnResult : Type 0 where
  pub utterance : Option String
  pub session : SessionView

-- `_VIEW_PHASES`: all phases but `CREATED`.
abbrev pub has_view : Phase → Bool
has_view Phase.created = false
has_view _ = true

abbrev index_in : Phase → ℕ → Option ℕ
index_in Phase.tech i = some i
index_in _ i = none

-- The first text of an interviewer's entry.
unfoldable pub last_utterance : List TranscriptEntry → Option String
last_utterance [] = none
last_utterance (entry ∷ entries) =
    let rest = last_utterance entries in if is_interviewer entry.role then some entry.text else rest

module _ {V : Type 0} (wiring : Wiring V) where
  -- Whether the phase has a view is given.
  unfoldable pub view_if : Bool → Working → M V SessionView
  view_if false working = raise ShellError.not_started
  view_if true working = do
    total ← ask_with (wiring.session_total working.session_id)
    pure (record {
      session_id = working.session_id;
      phase = working.state.phase;
      abort_reason = working.state.abort_reason;
      awaiting = working.state.awaiting;
      competency_index = index_in working.state.phase working.state.tech.competency_index;
      coverage = working.state.tech.coverage;
      flagged_for_review = working.state.flagged_for_review;
      cost_usd_total = total;
      transcript = working.transcript;
    })

  unfoldable pub view : Working → M V SessionView
  unfolding view_if
  view working = view_if (has_view working.state.phase) working
