-- ===== src/Orchestrator/Persistence.antt =====
-- app/backend/orchestrator/persistence.py: loading and saving the state of a session.
-- The table `interview_session` is a dictionary from ids to the column `session_state`, which may
-- be NULL.
pub mod RoundTrip
pub mod Resume
mod Examples
use tech_screen_ai.Prelude.{
  ℕ, String, Bool, false, Option, none, some, if◌then◌else◌, string_eq, nat_eq,
}
use tech_screen_ai.Prelude.Dict.{Dict, lookup, insert}
use tech_screen_ai.Prelude.Int.{ℤ, pos, negsuc}
use tech_screen_ai.Json.{Json, Fields, get}
use tech_screen_ai.Orchestrator.Command.{Uuid}
use tech_screen_ai.Orchestrator.State.{SessionState}

pub data PersistenceError : Type 0 where
  schema_version decode not_found : PersistenceError

pub data Stored {ℓ} (A : Type ℓ) : Type ℓ where
  ok : A → Stored A
  err : PersistenceError → Stored A

-- What the module calls: pydantic, and Postgres reading the text of `json.dumps` as JSONB.
pub record Codec : Type 0 where
  -- `state.model_dump(mode="json")`
  pub model_dump : SessionState → Fields
  -- the object that `CAST(:state AS JSONB)` stores, where Postgres accepts the text
  pub jsonb : Fields → Fields
  -- `SessionState.model_validate`; `none` is a `ValidationError`
  pub model_validate : Fields → Option SessionState

abbrev pub Database : Type 0
Database = Dict Uuid (Option Json)

abbrev pub version_key : String
version_key = "state_schema_version"

-- The stored version: an integer that is not a `bool`.
unfoldable pub stored_version : Option Json → Option ℤ
stored_version (some (Json.int n)) = some n
stored_version _ = none

unfoldable pub is_version : ℕ → Option ℤ → Bool
is_version expected (some (pos n)) = nat_eq n expected
is_version expected _ = false

module _ (codec : Codec) where
  unfoldable pub encode_session_state : SessionState → Fields
  encode_session_state state = codec.model_dump state

  -- A version that is missing, not an integer or another one is the same error.
  unfoldable pub decode_session_state : Json → ℕ → Stored SessionState
  unfolding get stored_version is_version
  decode_session_state (Json.obj raw) expected =
      if is_version expected (stored_version (get version_key raw))
      then elim (codec.model_validate raw) [
        | none ↦ err PersistenceError.decode
        | some state ↦ ok state
      ]
      else err PersistenceError.schema_version
  decode_session_state _ expected = err PersistenceError.decode

  abbrev present : Stored SessionState → Stored (Option SessionState)
  present (ok state) = ok (some state)
  present (err e) = err e

  -- The row, if there is one, and then its column.
  unfoldable pub read_row : Option (Option Json) → ℕ → Stored (Option SessionState)
  unfolding decode_session_state
  read_row none expected = err PersistenceError.not_found
  read_row (some none) expected = ok none
  read_row (some (some stored)) expected = present (decode_session_state stored expected)

  unfoldable pub load_session_state : Database → Uuid → ℕ → Stored (Option SessionState)
  unfolding read_row
  load_session_state db id expected = read_row (lookup id db) expected

  abbrev pub saved : SessionState → Json
  unfolding encode_session_state
  saved state = Json.obj (codec.jsonb (encode_session_state state))

  -- The update, if it finds a row.
  unfoldable pub update_row :
      Option (Option Json) → Database → Uuid → SessionState → Stored Database
  update_row none db id state = err PersistenceError.not_found
  update_row (some column) db id state = ok (insert id (some (saved state)) db)

  unfoldable pub save_session_state : Database → Uuid → SessionState → Stored Database
  unfolding update_row
  save_session_state db id state = update_row (lookup id db) db id state
