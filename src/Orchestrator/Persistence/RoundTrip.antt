-- ===== src/Orchestrator/Persistence/RoundTrip.antt =====
-- What is saved is what is loaded, and no other version is ever loaded.
use tech_screen_ai.Prelude.{
  ℕ, ◌≡◌, ◌≢◌, refl, ap, ◌∙◌, true, Option, some, if◌then◌else◌, string_eq, nat_eq, arith,
  Bool-cases, inl, inr,
}
use tech_screen_ai.Prelude.Dict.{lookup, insert, lookup-insert-same, lookup-insert-other}
use tech_screen_ai.Prelude.Int.{pos}
use tech_screen_ai.Json.{Json, Fields, get}
use tech_screen_ai.Orchestrator.Command.{Uuid}
use tech_screen_ai.Orchestrator.Persistence.{
  Codec, Database, PersistenceError, ok, err, version_key, stored_version, is_version,
  encode_session_state, decode_session_state, load_session_state, save_session_state, read_row,
  update_row, saved,
}
use tech_screen_ai.Orchestrator.State.{SessionState}

-- For this state, pydantic writes the version as an integer and reads back what it wrote, through
-- JSONB.
pub record IsLossless (codec : Codec) (s : SessionState) : Type 0 where
  pub version :
      get version_key (codec.jsonb (codec.model_dump s))
      ≡ some (Json.int (pos s.state_schema_version))
  pub lossless : codec.model_validate (codec.jsonb (codec.model_dump s)) ≡ some s

-- pydantic reads the version from the document.
abbrev pub ReadsVersion : Codec → Type 0
ReadsVersion codec =
    (raw : Fields) (s : SessionState) (n : ℕ)
    → codec.model_validate raw ≡ some s
    → get version_key raw ≡ some (Json.int (pos n))
    → s.state_schema_version ≡ n

module _ (codec : Codec) where
  decode-encode :
      (s : SessionState) (expected : ℕ)
      → IsLossless codec s
      → decode_session_state codec (saved codec s) expected ≡ (
          if nat_eq s.state_schema_version expected
          then ok s
          else err PersistenceError.schema_version)
  unfolding decode_session_state encode_session_state stored_version is_version
  decode-encode s expected h = rw (h.version, h.lossless) refl

  pub read_row-saved :
      (s : SessionState) (expected : ℕ)
      → IsLossless codec s
      → read_row codec (some (some (saved codec s))) expected ≡ (
          if nat_eq s.state_schema_version expected
          then ok (some s)
          else err PersistenceError.schema_version)
  unfolding read_row
  read_row-saved s expected h =
      rw (decode-encode s expected h) elim (Bool-cases (nat_eq s.state_schema_version expected)) [
        | inl e ↦ rw e refl
        | inr e ↦ rw e refl
      ]

  pub load-save :
      (db : Database) (id : Uuid) (column : Option Json) (s : SessionState) (expected : ℕ)
      → IsLossless codec s
      → lookup id db ≡ some column
      → (after : Database) × (save_session_state codec db id s ≡ ok after)
        × (load_session_state codec after id expected ≡ (
            if nat_eq s.state_schema_version expected
            then ok (some s)
            else err PersistenceError.schema_version))
        × ((other : Uuid)
            → other ≢ id
            → load_session_state codec after other expected
              ≡ load_session_state codec db other expected)
  unfolding save_session_state load_session_state
  load-save db id column s expected h row = (
    insert id (some (saved codec s)) db,
    ap (λ found. update_row codec found db id s) row,
    ap (λ found. read_row codec found expected) (lookup-insert-same id (some (saved codec s)) db)
        ∙ read_row-saved s expected h,
    λ other ne.
        ap (λ found. read_row codec found expected)
          (lookup-insert-other id other (some (saved codec s)) db ne),
  )

  -- A version that passes the test is the integer that is expected.
  expected_integer :
      (found : Option Json) (expected : ℕ)
      → is_version expected (stored_version found) ≡ true
      → found ≡ some (Json.int (pos expected))
  unfolding is_version stored_version
  expected_integer found expected e = ground arith

  read_row-version :
      (row : Option (Option Json)) (s : SessionState) (expected : ℕ)
      → ReadsVersion codec
      → read_row codec row expected ≡ ok (some s)
      → s.state_schema_version ≡ expected
  unfolding read_row decode_session_state
  read_row-version (some (some (Json.obj raw))) s expected h e =
      h raw s expected (ground arith)
        (expected_integer (get version_key raw) expected (ground arith))
  read_row-version _ s expected h e = absurd (ground arith)

  -- A state is loaded only at the schema version that is expected, if pydantic reads the version
  -- from the document.
  pub load-version :
      (db : Database) (id : Uuid) (s : SessionState) (expected : ℕ)
      → ReadsVersion codec
      → load_session_state codec db id expected ≡ ok (some s)
      → s.state_schema_version ≡ expected
  unfolding load_session_state
  load-version db id s expected h e = read_row-version (lookup id db) s expected h e
