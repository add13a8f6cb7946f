-- ===== src/Session/Drive/Round.antt =====
-- One round of the drive loop returns: the session's row then holds the state and the chat log, and
-- what is left to do is cheaper.
use tech_screen_ai.Prelude.{
  ℕ, Bool, true, false, ◌≤◌, ◌≡◌, refl, ap, ◌∙◌, Option, none, some, is_some, Bool-cases, inl, inr,
  List, [], ◌∷◌, ◌++◌, length, length-append, nat_eq, nat_eq_iff, arith, string_eq,
}
use mathlib.Core.List.{append-nil}
use tech_screen_ai.Prelude.Dict.{lookup, lookup-insert-same}
use tech_screen_ai.Json.{Json}
use tech_screen_ai.Orchestrator.Command.{Uuid}
use tech_screen_ai.Orchestrator.Event.{Event}
use tech_screen_ai.Orchestrator.Externals.{Validates}
use tech_screen_ai.Orchestrator.Invariant.{IsSound}
use tech_screen_ai.Orchestrator.Invariant.Runs.{transition-IsSound}
use tech_screen_ai.Orchestrator.Persistence.{saved, update_row, save_session_state}
use tech_screen_ai.Orchestrator.Runs.{Reaches}
use tech_screen_ai.Orchestrator.State.{SessionState, Result, ok, err, Outcome}
use tech_screen_ai.Orchestrator.Transition.{transition}
use tech_screen_ai.Session.Drive.{
  state_document, dumped, saved_log, written, store_state, persist, persist_growth, enter, settle,
  advance, lifted,
}
use tech_screen_ai.Session.Drive.Commands.{execute-Yields}
use tech_screen_ai.Session.Drive.Ran.{Ran, events_rank, IsReadable}
use tech_screen_ai.Session.Drive.Rank.{commands_rank, count_asks}
use tech_screen_ai.Session.Drive.Yields.{IsRefusal, Yields, Yields-next, Yields-weaken}
use tech_screen_ai.Session.Execute.{execute}
use tech_screen_ai.Session.Working.{Working}
use tech_screen_ai.Session.World.{Wiring, World, ShellError}

-- The session has a row.
abbrev pub HasRow : {V : Type 0} → Uuid → World V → Type 0
HasRow id w = is_some (lookup id w.tables.sessions) ≡ true

-- The row holds the state and the chat log, both as JSONB.
pub record IsStored {V : Type 0} (wiring : Wiring V) (working : Working) (w : World V)
    : Type 0 where
  pub row :
      lookup working.session_id w.tables.sessions ≡ some (some (saved wiring.codec working.state))
  pub log :
      lookup working.session_id w.tables.transcripts
      ≡ some (some (saved_log wiring working.transcript))

-- After a round: the state that the transition gave, stored, with cheaper events to come.
pub record Settled {V : Type 0} (wiring : Wiring V) (working : Working) (o : Outcome)
    (after : Working) (events : List Event) (w : World V) : Type 0 where
  pub state : after.state ≡ o.0
  pub session_id : after.session_id ≡ working.session_id
  pub stored : IsStored wiring after w
  pub cheap : events_rank o.0 events ≤ commands_rank o.0 o.1
  pub few : length events ≤ count_asks o.1

abbrev pub SettledAs :
    {V : Type 0} → Wiring V → Working → Outcome → Working × List Event → World V → Type 0
SettledAs wiring working o (after, events) w = Settled wiring working o after events w

-- The transition returned, kept the machine's invariant, and its outcome was settled.
abbrev pub Advanced :
    {V : Type 0} → Wiring V → Working → Event → Working × List Event → World V → Type 0
Advanced wiring working event step w =
    (o : Outcome) × (transition wiring.lib wiring.config working.state event ≡ ok o)
    × IsSound wiring.config o.0
    × SettledAs wiring working o step w

length-zero {ℓ} : {A : Type ℓ} (xs : List A) → length xs ≡ 0 → xs ≡ []
length-zero [] h = refl
length-zero (x ∷ xs) h = absurd (omega arith)

unchanged {ℓ} :
    {A : Type ℓ} (xs growth ys : List A) → ys ≡ xs ++ growth → length ys ≡ length xs → ys ≡ xs
unchanged xs growth ys e h =
    let none_new : growth ≡ [] =
      length-zero growth (omega (arith, ap length e, length-append xs growth, h)) in
    e ∙ ap (λ g. xs ++ g) none_new ∙ append-nil xs

module _ {V : Type 0} (wiring : Wiring V) where
  update_row-Yields :
      (found : Option (Option Json)) (working : Working) (accepted : Bool) (w : World V)
      → is_some found ≡ true
      → (accepted ≡ false → IsRefusal wiring ShellError.storage_refused)
      → Yields wiring
          (λ _ v. IsStored wiring working v)
          (written wiring working accepted w
            (update_row wiring.codec found w.tables.sessions working.session_id working.state))
  unfolding written update_row
  update_row-Yields none working accepted w h refused = absurd (ground arith)
  update_row-Yields (some column) working false w h refused = refused refl
  update_row-Yields (some column) working true w h refused = record {
    row = lookup-insert-same working.session_id _ w.tables.sessions;
    log = lookup-insert-same working.session_id _ w.tables.transcripts;
  }

  stored-Yields :
      (working : Working) (accepted : Bool) (w : World V)
      → HasRow working.session_id w
      → (accepted ≡ false → IsRefusal wiring ShellError.storage_refused)
      → Yields wiring (λ _ v. IsStored wiring working v) (store_state wiring accepted working w)
  unfolding store_state save_session_state
  stored-Yields working false w h refused = refused refl
  stored-Yields working true w h refused =
      update_row-Yields (lookup working.session_id w.tables.sessions) working
        (wiring.accepts (Json.arr (dumped wiring working.transcript))) w h
        λ e. (Json.arr (dumped wiring working.transcript), e)

  pub persist-Yields :
      (working : Working) (w : World V)
      → HasRow working.session_id w
      → Yields wiring (λ _ v. IsStored wiring working v) (persist wiring working w)
  unfolding persist
  persist-Yields working w h =
      stored-Yields working (wiring.accepts (state_document wiring working.state)) w h
        λ e. (state_document wiring working.state, e)

  pub HasRow-of_IsStored :
      (working : Working) (w : World V) → IsStored wiring working w → HasRow working.session_id w
  HasRow-of_IsStored working w h = ap is_some h.row

  persist_growth-Yields :
      (before after : Working) (w v : World V) {cost asked : ℕ} {events : List Event}
      → IsStored wiring before w
      → Ran cost asked before w after events v
      → Yields wiring
          (λ _ u. IsStored wiring after u)
          (persist_growth wiring (length before.transcript) after v)
  unfolding persist_growth
  persist_growth-Yields before after w v stored ran =
      elim (Bool-cases (nat_eq (length after.transcript) (length before.transcript))) [
        | inl e ↦
            let same =
              unchanged before.transcript ran.growth after.transcript ran.transcript
                ((nat_eq_iff _ _).0 e) in
            rw e (record {
              row = cc (stored.row, ran.state, ran.session_id, ran.sessions);
              log = cc (stored.log, same, ran.session_id, ran.transcripts);
            })
        | inr e ↦
            let found : lookup after.session_id v.tables.sessions
                ≡ some (some (saved wiring.codec before.state)) =
              cc (stored.row, ran.session_id, ran.sessions) in
            rw e (persist-Yields after v (ap is_some found))
      ]

  settle-Yields :
      (working : Working) (o : Outcome) (w : World V)
      → IsReadable wiring
      → HasRow working.session_id w
      → Yields wiring (SettledAs wiring working o) (settle wiring working o w)
  unfolding settle
  settle-Yields working o w readable h =
      let entered = enter working o.0 in
      Yields-next wiring _ _ _ (persist wiring entered w) (persist-Yields entered w h) λ _ v stored.
        Yields-next wiring _ _ _ (execute wiring entered o.1 v)
          (execute-Yields wiring entered o.1 v readable)
          λ (after, events) u ran.
            Yields-next wiring _ _ _ (persist_growth wiring (length working.transcript) after u)
              (persist_growth-Yields entered after v u stored ran)
              λ _ t kept. record {
                state = ran.state;
                session_id = ran.session_id;
                stored = kept;
                cheap = ran.cheap;
                few = ran.few;
              }

  -- The machine's exceptions are excluded by its invariant.
  lifted-Yields :
      (r : Result Outcome) (P : SessionState → Type 0) (w : World V)
      → Reaches P r
      → Yields wiring (λ o v. (r ≡ ok o) × P o.0 × (v ≡ w)) (lifted r w)
  lifted-Yields (ok o) P w h = (refl, h, refl)
  lifted-Yields (err e) P w h = absurd h

  pub advance-Yields :
      (working : Working) (event : Event) (w : World V)
      → Validates wiring.lib
      → IsReadable wiring
      → IsSound wiring.config working.state
      → HasRow working.session_id w
      → Yields wiring (Advanced wiring working event) (advance wiring working event w)
  unfolding advance
  advance-Yields working event w valid readable sound row =
      let r = transition wiring.lib wiring.config working.state event in
      Yields-next wiring _ _ _ (lifted r w)
        (lifted-Yields r (IsSound wiring.config) w
          (transition-IsSound wiring.lib wiring.config valid working.state event sound))
        λ o v h.
          Yields-weaken wiring (SettledAs wiring working o) (Advanced wiring working event)
            (settle wiring working o v)
            (settle-Yields working o v readable
              (ap (λ u. is_some (lookup working.session_id u.tables.sessions)) h.2 ∙ row))
            λ step u settled. (o, h.0, h.1, settled)
