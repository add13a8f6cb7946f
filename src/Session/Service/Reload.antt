-- ===== src/Session/Service/Reload.antt =====
-- The service keeps nothing in memory between two requests: what the drive loop returns is what the
-- next request loads.
use tech_screen_ai.Prelude.{
  ℕ, ◌≡◌, refl, sym, ap, ◌∙◌, some, All, List, [], ◌∷◌, nat_eq_iff, string_eq,
}
use mathlib.Core.Path.{subst}
use tech_screen_ai.Prelude.Dict.{lookup}
use tech_screen_ai.Orchestrator.Event.{Event}
use tech_screen_ai.Orchestrator.Externals.{Validates}
use tech_screen_ai.Orchestrator.Invariant.{IsSound}
use tech_screen_ai.Orchestrator.Persistence.{Stored, read_row, load_session_state}
use tech_screen_ai.Orchestrator.Persistence.Resume.{HasVersion, transition-HasVersion}
use tech_screen_ai.Orchestrator.Persistence.RoundTrip.{IsLossless, read_row-saved}
use tech_screen_ai.Orchestrator.Runs.{OnReturn, run-OnReturn}
use tech_screen_ai.Session.Drive.{drive, dumped, cast_items}
use tech_screen_ai.Session.Drive.Ran.{IsReadable}
use tech_screen_ai.Session.Drive.Round.{HasRow, IsStored}
use tech_screen_ai.Session.Drive.Total.{Driven, DrivenBy, drive-Completes}
use tech_screen_ai.Session.Drive.Yields.{Yields}
use tech_screen_ai.Session.Service.{
  load, rehydrate, decode_entries, decode_transcript, log_column, assembled,
}
use tech_screen_ai.Session.Working.{Working, TranscriptEntry}
use tech_screen_ai.Session.World.{Wiring, World, Reply}

-- An entry of the chat log survives its dump, JSONB and pydantic.
abbrev KeepsEntry : {V : Type 0} → Wiring V → TranscriptEntry → Type 0
KeepsEntry wiring entry =
    wiring.entry_validate (wiring.entry_jsonb (wiring.entry_dump entry)) ≡ some entry

abbrev pub KeepsLog : {V : Type 0} → Wiring V → List TranscriptEntry → Type 0
KeepsLog wiring entries = All (KeepsEntry wiring) entries

module _ {V : Type 0} (wiring : Wiring V) where
  -- Entry by entry, the log is decoded as it was.
  decode-saved :
      (entries : List TranscriptEntry)
      → KeepsLog wiring entries
      → decode_entries wiring (cast_items wiring (dumped wiring entries)) ≡ some entries
  unfolding decode_entries cast_items dumped
  decode-saved [] kept = refl
  decode-saved (entry ∷ entries) (first, rest) = rw (first, decode-saved entries rest) refl

  read_row-IsStored :
      (working : Working) (w : World V)
      → IsStored wiring working w
      → HasVersion wiring.config.state_schema_version working.state
      → IsLossless wiring.codec working.state
      → read_row wiring.codec
          (lookup working.session_id w.tables.sessions)
          wiring.config.state_schema_version
        ≡ Stored.ok (some working.state)
  read_row-IsStored working w stored version lossless = rw stored.row (
      read_row-saved wiring.codec working.state wiring.config.state_schema_version lossless
      ∙ rw ((nat_eq_iff working.state.state_schema_version _).1 version) refl)

  pub load-IsStored :
      (working : Working) (w : World V)
      → IsStored wiring working w
      → HasVersion wiring.config.state_schema_version working.state
      → IsLossless wiring.codec working.state
      → KeepsLog wiring working.transcript
      → load wiring working.session_id w ≡ (Reply.done working, w)
  unfolding load rehydrate load_session_state decode_transcript
  load-IsStored working w stored version lossless kept =
      rw (read_row-IsStored working w stored version lossless) (
        ap
          (λ found.
            assembled wiring working.session_id working.state
              (decode_transcript wiring (log_column wiring found)) w)
          stored.log
        ∙ ap (λ entries. assembled wiring working.session_id working.state entries w)
            (decode-saved working.transcript kept))

  pub Driven-HasVersion :
      (working : Working) (events : List Event) (after : Working) (w : World V) (n : ℕ)
      → HasVersion n working.state
      → Driven wiring working events after w
      → HasVersion n after.state
  Driven-HasVersion working events after w n version driven =
      subst (OnReturn (HasVersion n)) driven.trace (
        run-OnReturn wiring.lib wiring.config (HasVersion n)
          (transition-HasVersion wiring.lib wiring.config n) working.state events version)

  -- When driving an event in a sound state returns, loading the session from the database gives
  -- exactly the state and the chat log that it returned. The state must have the configured
  -- version, the session a row, and the returned state and each entry of the returned log must
  -- survive pydantic and JSONB; pydantic must return only plans within the declared bounds, whose
  -- minutes fit in a timedelta or a float as the code converts them, and every candidate-facing
  -- file must be readable.
  pub drive-Reloads :
      (working after : Working) (event : Event) (w w' : World V)
      → Validates wiring.lib
      → IsReadable wiring
      → IsSound wiring.config working.state
      → HasRow working.session_id w
      → HasVersion wiring.config.state_schema_version working.state
      → drive wiring working event w ≡ (Reply.done after, w')
      → IsLossless wiring.codec after.state
      → KeepsLog wiring after.transcript
      → load wiring working.session_id w' ≡ (Reply.done after, w')
  drive-Reloads working after event w w' valid readable sound row version returns lossless kept =
      let (later, driven, few) =
        subst (Yields wiring (DrivenBy wiring working event)) returns
          (drive-Completes wiring valid readable working event w sound row) in
      ap (λ id. load wiring id w') (sym driven.session_id)
      ∙ load-IsStored after w' driven.stored
          (Driven-HasVersion working (event ∷ later) after w' _ version driven) lossless kept
