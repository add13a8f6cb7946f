-- ===== src/Session/Drive/Total.antt =====
-- The drive loop returns: within its bound, and in the state that the machine runs to.
use mathlib.Core.Path.{subst}
use tech_screen_ai.Prelude.{
  ℕ, zero, suc, ◌≤◌, ◌<◌, ◌≡◌, refl, sym, ap, ◌∙◌, List, [], ◌∷◌, ◌++◌, length, arith,
}
use tech_screen_ai.Orchestrator.Command.{Command}
use tech_screen_ai.Orchestrator.Event.{Event}
use tech_screen_ai.Orchestrator.Externals.{Externals, Validates}
use tech_screen_ai.Orchestrator.Config.{OrchestratorConfig}
use tech_screen_ai.Orchestrator.Invariant.{IsSound}
use tech_screen_ai.Orchestrator.State.{SessionState, ok, Outcome}
use tech_screen_ai.Orchestrator.Transition.{transition, run}
use tech_screen_ai.Session.Drive.{advance, drive, drive_queue}
use tech_screen_ai.Session.Drive.Ran.{IsReadable, events_rank}
use tech_screen_ai.Session.Drive.Rank.{rank, Descends, transition-Descends}
use tech_screen_ai.Session.Drive.Round.{
  HasRow, IsStored, Advanced, HasRow-of_IsStored, advance-Yields,
}
use tech_screen_ai.Session.Drive.Yields.{Yields, Yields-next, Yields-weaken}
use tech_screen_ai.Session.Working.{Working}
use tech_screen_ai.Session.World.{Wiring, World}

-- The machine ran over the events, and the session's row holds where it came to.
pub record Driven {V : Type 0} (wiring : Wiring V) (working : Working) (events : List Event)
    (after : Working) (w : World V) : Type 0 where
  pub commands : List Command
  pub trace : run wiring.lib wiring.config working.state events ≡ ok (after.state, commands)
  pub session_id : after.session_id ≡ working.session_id
  pub sound : IsSound wiring.config after.state
  pub stored : IsStored wiring after w

-- The event first, then what it caused, at most four rounds in all.
abbrev pub DrivenBy : {V : Type 0} → Wiring V → Working → Event → Working → World V → Type 0
DrivenBy wiring working event after w =
    (later : List Event) × Driven wiring working (event ∷ later) after w
    × (length later < rank working.state event)

abbrev pub DrivenOn : {V : Type 0} → Wiring V → Working → List Event → Working → World V → Type 0
DrivenOn wiring working queue after w =
    (events : List Event) × Driven wiring working events after w
    × (length events ≤ events_rank working.state queue)

run-cons :
    (lib : Externals) (config : OrchestratorConfig) (s : SessionState) (event : Event)
    (o l : Outcome) (events : List Event)
    → transition lib config s event ≡ ok o
    → run lib config o.0 events ≡ ok l
    → run lib config s (event ∷ events) ≡ ok (l.0, o.1 ++ l.1)
unfolding run
run-cons lib config s event o l events first rest = rw first (rw rest refl)

rank-pos : (s : SessionState) (event : Event) → 1 ≤ rank s event
rank-pos s event = ground arith

rank-le : (s : SessionState) (event : Event) → rank s event ≤ 4
rank-le s event = ground arith

module _ {V : Type 0} (wiring : Wiring V) (valid : Validates wiring.lib)
    (readable : IsReadable wiring) where
  -- A round, and whatever the rest of the loop does with the events that it leaves.
  DrivenBy-of_round :
      (working : Working) (event : Event) (mid after : Working) (queue : List Event) (v w : World V)
      → Advanced wiring working event (mid, queue) v
      → DrivenOn wiring mid queue after w
      → DrivenBy wiring working event after w
  DrivenBy-of_round working event mid after queue v w (o, first, sound, settled)
        (events, driven, few) =
      let descends : Descends working.state event (ok o) =
        subst (Descends working.state event) first
          (transition-Descends wiring.lib wiring.config working.state event) in
      let from : run wiring.lib wiring.config o.0 events ≡ ok (after.state, driven.commands) =
        ap (λ s. run wiring.lib wiring.config s events) (sym settled.state) ∙ driven.trace in
      (
        events,
        record {
          commands = o.1 ++ driven.commands;
          trace = run-cons wiring.lib wiring.config working.state event o _ events first from;
          session_id = driven.session_id ∙ settled.session_id;
          sound = driven.sound;
          stored = driven.stored;
        },
        omega (arith, descends.0, few, settled.cheap, ap (λ s. events_rank s queue) settled.state),
      )

  rest_cheap :
      (working : Working) (event : Event) (mid : Working) (queue : List Event) (v : World V)
      (steps : ℕ)
      → Advanced wiring working event (mid, queue) v
      → rank working.state event ≤ suc steps
      → (events_rank mid.state queue ≤ steps) × (length queue ≤ 1)
  rest_cheap working event mid queue v steps (o, first, sound, settled) le =
      let descends : Descends working.state event (ok o) =
        subst (Descends working.state event) first
          (transition-Descends wiring.lib wiring.config working.state event) in
      (
        omega (arith, le, descends.0, settled.cheap, ap (λ s. events_rank s queue) settled.state),
        omega (arith, descends.1, settled.few),
      )

  -- The loop after its first round.
  abbrev Continues : ℕ → Type 0
  Continues steps =
      (working : Working) (queue : List Event) (w : World V)
      → IsSound wiring.config working.state
      → IsStored wiring working w
      → events_rank working.state queue ≤ steps
      → length queue ≤ 1
      → Yields wiring (DrivenOn wiring working queue) (drive_queue wiring steps working queue w)

  round-Yields :
      (steps : ℕ) (working : Working) (event : Event) (w : World V)
      → IsSound wiring.config working.state
      → HasRow working.session_id w
      → rank working.state event ≤ suc steps
      → Continues steps
      → Yields wiring
          (DrivenBy wiring working event)
          (drive_queue wiring (suc steps) working (event ∷ []) w)
  unfolding drive_queue
  round-Yields steps working event w sound row le rest =
      Yields-next wiring (Advanced wiring working event) (DrivenBy wiring working event) _
        (advance wiring working event w)
        (advance-Yields wiring working event w valid readable sound row)
        λ (mid, queue) v (o, first, kept, settled).
          let cheap = rest_cheap working event mid queue v steps (o, first, kept, settled) le in
          Yields-weaken wiring (DrivenOn wiring mid queue) (DrivenBy wiring working event)
            (drive_queue wiring steps mid queue v)
            (rest mid queue v (subst (IsSound wiring.config) (sym settled.state) kept)
              settled.stored cheap.0 cheap.1)
            λ after u on.
              DrivenBy-of_round working event mid after queue v u (o, first, kept, settled) on

  drive_queue-Yields : (steps : ℕ) → Continues steps
  unfolding drive_queue run
  drive_queue-Yields steps working [] w sound stored le few = (
    [],
    record { commands = []; trace = refl; session_id = refl; sound = sound; stored = stored },
    omega arith,
  )
  drive_queue-Yields zero working (event ∷ queue) w sound stored le few =
      absurd (omega (arith, le, rank-pos working.state event))
  drive_queue-Yields (suc steps) working (event ∷ []) w sound stored le few =
      Yields-weaken wiring (DrivenBy wiring working event) (DrivenOn wiring working (event ∷ []))
        (drive_queue wiring (suc steps) working (event ∷ []) w)
        (round-Yields steps working event w sound (HasRow-of_IsStored wiring working w stored)
          (omega arith) (drive_queue-Yields steps))
        λ after u (later, driven, short). (event ∷ later, driven, omega arith)
  drive_queue-Yields (suc steps) working (event ∷ next ∷ queue) w sound stored le few =
      absurd (omega arith)

  pub drive-Completes :
      (working : Working) (event : Event) (w : World V)
      → IsSound wiring.config working.state
      → HasRow working.session_id w
      → Yields wiring (DrivenBy wiring working event) (drive wiring working event w)
  unfolding drive
  drive-Completes working event w sound row =
      round-Yields 63 working event w sound row (omega (arith, rank-le working.state event))
        (drive_queue-Yields 63)
