-- ===== src/Orchestrator/TurnIds.antt =====
-- The ids of new turns: consecutive in the structural counter, so never used twice.
use tech_screen_ai.Prelude.{
  ℕ, zero, suc, ◌+◌, ◌-◌, ◌≤◌, ◌<◌, ◌≡◌, ◌≢◌, refl, ap, sym, ◌∙◌, Bool, true, false, List, [], ◌∷◌,
  ◌++◌, arith, All,
}
use native.Mathlib.Nat.{suc-add, sub_self}
use text.Mathlib.TextLemmas.{append_cancel_left}
use tech_screen_ai.Prelude.Decimal.{decimal, decimal-injective}
use tech_screen_ai.Orchestrator.Command.{Uuid, PendingCommand, Command}
use tech_screen_ai.Orchestrator.Config.{OrchestratorConfig}
use tech_screen_ai.Orchestrator.Event.{Event}
use tech_screen_ai.Orchestrator.Externals.{Externals, IsCollisionFree}
use tech_screen_ai.Orchestrator.Moves.{turn_path, derive_turn_id, next_turn_id}
use tech_screen_ai.Orchestrator.State.{SessionState, Result, ok, err, Outcome, ◌>>=◌}
use tech_screen_ai.Orchestrator.Handlers.{
  on_session_started, on_candidate_turn, on_intro_candidate_turn, on_qa_candidate_turn,
  on_timer_tick, on_interviewer_reply, on_interviewer_failed, on_assessment_completed,
  on_assessment_failed, on_reconnected,
}
use tech_screen_ai.Orchestrator.TechTurn.{on_tech_candidate_turn, leave_competency, route}
use tech_screen_ai.Orchestrator.Transition.{live_transition, transition, run}

abbrev pub first_attempt : Bool → Uuid → List Uuid → List Uuid
first_attempt true id ids = ids
first_attempt false id ids = id ∷ ids

-- The ids of the commands that open a new turn: a first attempt of the interviewer, or a script.
abbrev pub new_turns : List Command → List Uuid
new_turns [] = []
new_turns (Command.outbound (PendingCommand.run_interviewer r) ∷ cs) =
    first_attempt r.retry r.turn_id (new_turns cs)
new_turns (Command.outbound (PendingCommand.emit_scripted_opening id path) ∷ cs) = id ∷ new_turns cs
new_turns (Command.outbound (PendingCommand.emit_scripted_closing id path) ∷ cs) = id ∷ new_turns cs
new_turns (_ ∷ cs) = new_turns cs

module _ (lib : Externals) where
  -- The ids of `count` turns from the counter `n` on.
  abbrev pub ids_from : Uuid → ℕ → ℕ → List Uuid
  ids_from session n zero = []
  ids_from session n (suc count) =
      derive_turn_id lib session (turn_path n) ∷ ids_from session (suc n) count

  -- The new turns have the next ids, and the counter has passed them.
  abbrev pub Issues : SessionState → Result Outcome → Type 0
  Issues s (ok o) =
      (o.0.session_id ≡ s.session_id)
      × (s.turn_seq ≤ o.0.turn_seq)
      × (new_turns o.1 ≡ ids_from s.session_id s.turn_seq (o.0.turn_seq - s.turn_seq))
  Issues s (err _) = Unit

module _ (lib : Externals) (config : OrchestratorConfig) where
  live_transition-Issues :
      (s : SessionState) (e : Event) → Issues lib s (live_transition lib config s e)
  unfolding live_transition on_session_started on_candidate_turn on_intro_candidate_turn
      on_qa_candidate_turn on_tech_candidate_turn leave_competency route on_timer_tick
      on_interviewer_reply on_interviewer_failed on_assessment_completed on_assessment_failed
      on_reconnected next_turn_id
  live_transition-Issues s (Event.session_started now) = ground arith
  live_transition-Issues s (Event.candidate_turn_received id text now) = ground arith
  live_transition-Issues s (Event.interviewer_reply_ready id output now) = ground arith
  live_transition-Issues s (Event.interviewer_failed id kind now) = ground arith
  live_transition-Issues s (Event.assessment_completed id output now) = ground arith
  live_transition-Issues s (Event.assessment_failed id kind now) = ground arith
  live_transition-Issues s (Event.timer_tick now) = ground arith
  live_transition-Issues s (Event.reconnected now) = ground arith
  live_transition-Issues s (Event.operator_abort reason now) = ground arith

  transition-Issues : (s : SessionState) (e : Event) → Issues lib s (transition lib config s e)
  unfolding transition
  transition-Issues s e = ground (arith, live_transition-Issues s e)

new_turns-append : (cs ds : List Command) → new_turns (cs ++ ds) ≡ new_turns cs ++ new_turns ds
new_turns-append [] ds = refl
new_turns-append (Command.outbound (PendingCommand.run_interviewer r) ∷ cs) ds =
    ground (arith, new_turns-append cs ds)
new_turns-append (Command.outbound (PendingCommand.emit_scripted_opening id path) ∷ cs) ds =
    ap (λ ids. id ∷ ids) (new_turns-append cs ds)
new_turns-append (Command.outbound (PendingCommand.emit_scripted_closing id path) ∷ cs) ds =
    ap (λ ids. id ∷ ids) (new_turns-append cs ds)
new_turns-append (_ ∷ cs) ds = new_turns-append cs ds

module _ (lib : Externals) where
  ids_from-add :
      (session : Uuid) (n k l : ℕ)
      → ids_from lib session n (k + l) ≡ ids_from lib session n k ++ ids_from lib session (n + k) l
  ids_from-add session n zero l =
      ap (ids_from lib session n) (omega arith) ∙ ap (λ m. ids_from lib session m l) (omega arith)
  ids_from-add session n (suc k) l = rw suc-add (
      ap (λ ids. derive_turn_id lib session (turn_path n) ∷ ids)
        (ids_from-add session (suc n) k l
          ∙ ap (λ m. ids_from lib session (suc n) k ++ ids_from lib session m l) (omega arith)))

  ids_from-split :
      (session : Uuid) (i j k : ℕ)
      → i ≤ j
      → j ≤ k
      → ids_from lib session i (k - i)
        ≡ ids_from lib session i (j - i) ++ ids_from lib session j (k - j)
  ids_from-split session i j k h h' =
      ap (ids_from lib session i) (omega arith)
      ∙ ids_from-add session i (j - i) (k - j)
      ∙ ap (λ m. ids_from lib session i (j - i) ++ ids_from lib session m (k - j)) (omega arith)

  then_run-Issues :
      (s : SessionState) (r : Result Outcome) (f : SessionState → Result Outcome)
      → Issues lib s r
      → ((t : SessionState) → Issues lib t (f t))
      → Issues lib s (r >>= λ o. f o.0 >>= λ l. ok (l.0, o.1 ++ l.1))
  then_run-Issues s (ok o) f h g = later (f o.0) (g o.0)
    where
      later :
          (l : Result Outcome) → Issues lib o.0 l → Issues lib s (l >>= λ l. ok (l.0, o.1 ++ l.1))
      later (ok l) k = (
        k.0 ∙ h.0,
        omega (arith, h.1, k.1),
        new_turns-append o.1 l.1
            ∙ ap (λ ids. new_turns o.1 ++ ids) k.2
            ∙ ap
                (λ ids.
                  ids ++ ids_from lib o.0.session_id o.0.turn_seq (l.0.turn_seq - o.0.turn_seq))
                h.2
            ∙ ap
                (λ session.
                  ids_from lib s.session_id s.turn_seq (o.0.turn_seq - s.turn_seq)
                  ++ ids_from lib session o.0.turn_seq (l.0.turn_seq - o.0.turn_seq))
                h.0
            ∙ sym (ids_from-split s.session_id s.turn_seq o.0.turn_seq l.0.turn_seq h.1 k.1),
      )
      later (err e) k = tt
  then_run-Issues s (err e) f h g = tt

-- No item occurs twice.
abbrev pub AllDistinct : List Uuid → Type 0
AllDistinct [] = Unit
AllDistinct (id ∷ ids) = All (λ other. other ≢ id) ids × AllDistinct ids

-- The run returned commands that open turns with distinct ids.
abbrev pub NewTurnsDistinct : Result Outcome → Type 0
NewTurnsDistinct (ok o) = AllDistinct (new_turns o.1)
NewTurnsDistinct (err _) = Unit

module _ (lib : Externals) where
  turn_path-injective : (m n : ℕ) → turn_path m ≡ turn_path n → m ≡ n
  unfolding turn_path
  turn_path-injective m n e =
      decimal-injective m n (append_cancel_left "turn/" (decimal m) (decimal n) e)

  module _ (free : IsCollisionFree lib) (session : Uuid) where
    ids_from-ne :
        (m n count : ℕ)
        → m < n
        → All
            (λ other. other ≢ derive_turn_id lib session (turn_path m))
            (ids_from lib session n count)
    unfolding derive_turn_id
    ids_from-ne m n zero h = tt
    ids_from-ne m n (suc count) h = (
      λ e.
          absurd
            (omega (arith, turn_path-injective n m (free session (turn_path n) (turn_path m) e))),
      ids_from-ne m (suc n) count (omega arith),
    )

    ids_from-AllDistinct : (n count : ℕ) → AllDistinct (ids_from lib session n count)
    ids_from-AllDistinct n zero = tt
    ids_from-AllDistinct n (suc count) =
        (ids_from-ne n (suc n) count (omega arith), ids_from-AllDistinct (suc n) count)

module _ (lib : Externals) (config : OrchestratorConfig) where
  -- Over any events, the ids of the newly opened turns are uuid5 of the paths turn/n for
  -- consecutive n from the counter turn_seq on, and the counter ends one past the last.
  pub run-Issues : (s : SessionState) (events : List Event) → Issues lib s (run lib config s events)
  unfolding run
  run-Issues s [] = (refl, omega arith, rw (sub_self))
  run-Issues s (e ∷ events) =
      then_run-Issues lib s (transition lib config s e) (λ t. run lib config t events)
        (transition-Issues lib config s e) (λ t. run-Issues t events)

  -- If uuid5 has no collisions, no two newly opened outbound turns of a run share a turn id.
  pub run-NewTurnsDistinct :
      (s : SessionState) (events : List Event)
      → IsCollisionFree lib
      → NewTurnsDistinct (run lib config s events)
  run-NewTurnsDistinct s events free = go (run lib config s events) (run-Issues s events)
    where
      go : (r : Result Outcome) → Issues lib s r → NewTurnsDistinct r
      go (ok o) h = rw h.2 (ids_from-AllDistinct lib free s.session_id s.turn_seq _)
      go (err e) h = tt
