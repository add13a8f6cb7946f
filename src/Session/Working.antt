-- ===== src/Session/Working.antt =====
-- The shell's view of one session (app/backend/services/dev_session.py): the machine's state, and
-- the chat log that the candidate sees.
use tech_screen_ai.Prelude.{ℕ, suc, String, Bool, true, false, Option, List, [], ◌∷◌, ◌++◌}
use Prim.Native.String.{◌++◌ as append_text}
use tech_screen_ai.Prelude.Decimal.{decimal}
use tech_screen_ai.Orchestrator.Command.{Uuid}
use tech_screen_ai.Orchestrator.Externals.{Externals}
use tech_screen_ai.Orchestrator.State.{SessionState}

pub data TranscriptRole : Type 0 where
  interviewer candidate system : TranscriptRole

pub record TranscriptEntry : Type 0 where
  pub role : TranscriptRole
  pub text : String
  pub turn_id : Option Uuid

pub record Working : Type 0 where
  pub session_id : Uuid
  pub state : SessionState
  pub transcript : List TranscriptEntry

-- `_Working.append`
unfoldable pub append : Working → TranscriptRole → String → Option Uuid → Working
append working role text id = record working {
  transcript = working.transcript ++ record { role = role; text = text; turn_id = id } ∷ [];
}

-- `entry.role == "candidate"`
abbrev pub is_candidate : TranscriptRole → Bool
is_candidate TranscriptRole.candidate = true
is_candidate _ = false

abbrev pub is_interviewer : TranscriptRole → Bool
is_interviewer TranscriptRole.interviewer = true
is_interviewer _ = false

-- f"candidate-turn/{ordinal}"
unfoldable pub candidate_path : ℕ → String
candidate_path ordinal = append_text "candidate-turn/" (decimal ordinal)

unfoldable pub candidate_turn_id : Externals → Uuid → ℕ → Uuid
unfolding candidate_path
candidate_turn_id lib session_id ordinal = lib.uuid5 session_id (candidate_path ordinal)

-- How many turns the candidate has taken.
unfoldable pub count_turns : List TranscriptEntry → ℕ
count_turns [] = 0
count_turns (entry ∷ entries) = elim (is_candidate entry.role) [
  | true ↦ suc (count_turns entries)
  | false ↦ count_turns entries
]
