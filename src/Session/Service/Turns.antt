-- ===== src/Session/Service/Turns.antt =====
-- A posted turn: refused without a trace, or carried through until the machine waits again.
use tech_screen_ai.Prelude.{
  ◌≡◌, refl, ap, ◌∙◌, String, Bool, true, false, ◌⊎◌, inl, inr, some, List, arith, length,
  string_eq,
}
use mathlib.Core.List.{reverse}
use tech_screen_ai.Prelude.Dict.{lookup}
use tech_screen_ai.Orchestrator.Event.{Event}
use tech_screen_ai.Orchestrator.Persistence.Resume.{HasVersion}
use tech_screen_ai.Orchestrator.Persistence.RoundTrip.{IsLossless}
use tech_screen_ai.Orchestrator.State.{is_terminal}
use tech_screen_ai.Session.Drive.Round.{IsStored}
use tech_screen_ai.Session.Drive.Total.{DrivenBy}
use tech_screen_ai.Session.Drive.Yields.{Yields}
use tech_screen_ai.Session.Inputs.{drop}
use tech_screen_ai.Session.Service.{takes_turn, take_turn, post_turn}
use tech_screen_ai.Session.View.{SessionView, TurnResult, has_view, view, view_if, last_utterance}
use tech_screen_ai.Session.Service.Reload.{KeepsLog, load-IsStored}
use tech_screen_ai.Session.Working.{Working, TranscriptRole, append, candidate_turn_id, count_turns}
use tech_screen_ai.Session.World.{Wiring, World, Reply, ShellError}

-- The view shows the session as it stands.
pub record Shows (working : Working) (v : SessionView) : Type 0 where
  pub session_id : v.session_id ≡ working.session_id
  pub phase : v.phase ≡ working.state.phase
  pub awaiting : v.awaiting ≡ working.state.awaiting
  pub abort_reason : v.abort_reason ≡ working.state.abort_reason
  pub transcript : v.transcript ≡ working.transcript

module _ {V : Type 0} (wiring : Wiring V) where
  view_if-Shows :
      (begun : Bool) (working : Working) (w : World V)
      → begun ≡ true
      → Yields wiring
          (λ v w'. Shows working v × (w'.tables ≡ w.tables))
          (view_if wiring begun working w)
  unfolding view_if
  view_if-Shows false working w h = absurd (ground arith)
  view_if-Shows true working w h = (
    record {
      session_id = refl;
      phase = refl;
      awaiting = refl;
      abort_reason = refl;
      transcript = refl;
    },
    refl,
  )

  pub view-Shows :
      (working : Working) (w : World V)
      → has_view working.state.phase ≡ true
      → Yields wiring (λ v w'. Shows working v × (w'.tables ≡ w.tables)) (view wiring working w)
  unfolding view
  view-Shows working w h = view_if-Shows (has_view working.state.phase) working w h

  -- The session with the candidate's text at the end of its log, and the event of the turn.
  abbrev pub heard : Working → String → Working
  heard working candidate_text =
      append working TranscriptRole.candidate candidate_text
        (some (candidate_turn_id wiring.lib working.session_id (count_turns working.transcript)))

  abbrev pub turn_event : Working → String → World V → Event
  turn_event working candidate_text w =
      Event.candidate_turn_received
        (candidate_turn_id wiring.lib working.session_id (count_turns working.transcript))
        candidate_text (wiring.now w.outside).0

  -- The machine took the turn, its row holds the state and the log that the answer shows.
  abbrev pub Answered : Working → String → World V → TurnResult → World V → Type 0
  Answered working candidate_text w result w' =
      (after : Working) × DrivenBy wiring (heard working candidate_text)
        (turn_event working candidate_text w) after w'
      × Shows after result.session
      × (result.utterance
          ≡ last_utterance
              (reverse (drop (length (heard working candidate_text).transcript) after.transcript)))

  pub IsStored-of_tables :
      (working : Working) (w v : World V)
      → v.tables ≡ w.tables
      → IsStored wiring working w
      → IsStored wiring working v
  IsStored-of_tables working w v same stored = record {
    row = ap (λ t. lookup working.session_id t.sessions) same ∙ stored.row;
    log = ap (λ t. lookup working.session_id t.transcripts) same ∙ stored.log;
  }

  -- For a stored session whose state is terminal, or takes no turn, posting a text raises the
  -- refusal and changes neither the database nor anything outside, if the stored state has the
  -- configured version, and it and each entry of the log survive pydantic and JSONB.
  pub post_turn-refuses :
      (working : Working) (candidate_text : String) (w : World V)
      → IsStored wiring working w
      → HasVersion wiring.config.state_schema_version working.state
      → IsLossless wiring.codec working.state
      → KeepsLog wiring working.transcript
      → (is_terminal working.state.phase ≡ true)
        ⊎ (takes_turn working.state.phase working.state.awaiting ≡ false)
      → post_turn wiring working.session_id candidate_text w
        ≡ (Reply.failed ShellError.not_awaiting_candidate, w)
  unfolding post_turn take_turn
  post_turn-refuses working text w stored version lossless kept (inl ended) =
      rw (load-IsStored wiring working w stored version lossless kept, ended) refl
  post_turn-refuses working text w stored version lossless kept (inr busy) =
      rw (load-IsStored wiring working w stored version lossless kept) (ground (arith, busy))
