-- ===== src/Session/World.antt =====
-- What the shell of app/backend/services/dev_session.py reads and writes, and its monad: the tables,
-- the scheduled tasks, and an outside that the collaborators may change.
use tech_screen_ai.Prelude.{ℕ, String, Bool, Option, List}
use tech_screen_ai.Prelude.Dict.{Dict}
use tech_screen_ai.Json.{Json, Fields}
use tech_screen_ai.Agents.Assessor.{AssessorTurnInput, AssessorLibrary}
use tech_screen_ai.Agents.Call.{ModelCallRequest, CallOutcome}
use tech_screen_ai.Agents.Interviewer.{InterviewerLibrary}
use tech_screen_ai.Orchestrator.Command.{Uuid}
use tech_screen_ai.Orchestrator.Config.{OrchestratorConfig}
use tech_screen_ai.Orchestrator.Externals.{Externals}
use tech_screen_ai.Orchestrator.Persistence.{Codec, Database}
use tech_screen_ai.Orchestrator.Plan.{PlannedCompetency, PlanSnapshot}
use tech_screen_ai.Orchestrator.State.{StateError, Time}
use tech_screen_ai.Session.Working.{TranscriptEntry}

-- The exceptions that leave the shell: `machine` is the core's, `no_row` and `state_unreadable` are
-- persistence's, `duplicate_row` and `storage_refused` are the database's, `request_invalid` is the
-- agents', `call_crashed` any exception of a call of the model that is no `WrapperError`, `log_unreadable` is pydantic's or that of a log that is no array, the others are this
-- module's own.
pub data ShellError : Type 0 where
  session_not_found plan_invalid not_awaiting_candidate runaway script_unreadable not_started :
      ShellError
  machine : StateError → ShellError
  no_row state_unreadable duplicate_row storage_refused log_unreadable request_invalid
        call_crashed :
      ShellError

-- A `RunAssessor` that was handed to the scheduler.
pub record AssessorTask : Type 0 where
  pub session_id : Uuid
  pub turn_id : Uuid
  pub inputs : AssessorTurnInput

-- The columns `session_state` and `dev_transcript` of `interview_session`, and `session_decision`
-- rows in the order of their insertion.
pub record Tables : Type 0 where
  pub sessions : Database
  pub transcripts : Dict Uuid (Option Json)
  pub decisions : List (Uuid × String)

pub record World (V : Type 0) : Type 0 where
  pub tables : Tables
  pub tasks : List AssessorTask
  pub outside : V

-- What the service is wired with. The model and the ledger work on the same database, so they see
-- the tables.
pub record Wiring (V : Type 0) : Type 0 where
  pub lib : Externals
  pub config : OrchestratorConfig
  pub codec : Codec
  pub interviewer : InterviewerLibrary
  pub assessor : AssessorLibrary
  -- whether `CAST(:t AS JSONB)` takes a document: Postgres refuses one that holds \u0000
  pub accepts : Json → Bool
  -- an element of an array, as that cast stores it
  pub entry_jsonb : Json → Json
  -- `entry.model_dump(mode="json")`, and `TranscriptEntry.model_validate`
  pub entry_dump : TranscriptEntry → Json
  pub entry_validate : Json → Option TranscriptEntry
  -- `plan_payload(plan)` and `competency.model_dump(mode="json")`
  pub plan_payload : PlanSnapshot → Fields
  pub competency_payload : PlannedCompetency → Fields
  -- the text of a candidate-facing file with its variables replaced; `none` if there is none
  pub render_script : String → Dict String String → Option String
  -- `_now()`
  pub now : V → Time × V
  -- `guard_session_budget`, which raises at `true`
  pub exceeds_budget : Uuid → Tables → V → Bool × V
  -- `ledger.session_total`, in the unit of Llm.Pricing
  pub session_total : Uuid → Tables → V → ℕ × V
  pub call_model : ModelCallRequest → Tables → V → CallOutcome × V
  -- the id of `INSERT … DEFAULT VALUES`
  pub fresh_id : V → Uuid × V

pub data Reply (A : Type 0) : Type 0 where
  done : A → Reply A
  failed : ShellError → Reply A

-- What was written stays written when an exception is raised.
abbrev pub M : Type 0 → Type 0 → Type 0
M V A = World V → Reply A × World V

abbrev pub next : {V A B : Type 0} → (A → M V B) → Reply A × World V → Reply B × World V
next f (Reply.done a, w) = f a w
next f (Reply.failed e, w) = (Reply.failed e, w)

infixl 5 ◌>>=◌ ◌>>◌
abbrev pub ◌>>=◌ : {V A B : Type 0} → M V A → (A → M V B) → M V B
◌>>=◌ m f w = next f (m w)

abbrev pub ◌>>◌ : {V B : Type 0} → M V (Unit {0}) → M V B → M V B
m >> k = m >>= λ _. k

abbrev pub pure : {V A : Type 0} → A → M V A
pure a w = (Reply.done a, w)

abbrev pub raise : {V A : Type 0} → ShellError → M V A
raise e w = (Reply.failed e, w)

-- An action on the outside.
abbrev pub ask : {V A : Type 0} → (V → A × V) → M V A
ask action w = let (a, v) = action w.outside in (Reply.done a, record w { outside = v })

-- An action that sees the tables.
abbrev pub ask_with : {V A : Type 0} → (Tables → V → A × V) → M V A
ask_with action w =
    let (a, v) = action w.tables w.outside in (Reply.done a, record w { outside = v })
