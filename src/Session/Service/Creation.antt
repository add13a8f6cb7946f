-- ===== src/Session/Service/Creation.antt =====
-- Creating a session: it opens, or its plan is refused, and either way it has a row.
use tech_screen_ai.Prelude.{◌≡◌, Bool, true, false, none, is_some, [], string_eq}
use tech_screen_ai.Json.{Json, Fields}
use tech_screen_ai.Orchestrator.Command.{Uuid, Command}
use tech_screen_ai.Orchestrator.Event.{Event}
use tech_screen_ai.Orchestrator.Externals.{Externals}
use tech_screen_ai.Orchestrator.Invariant.{IsSound}
use tech_screen_ai.Orchestrator.Plan.{validate_plan}
use tech_screen_ai.Orchestrator.State.{Phase, SessionState, initial_state}
use tech_screen_ai.Session.Drive.Round.{IsStored}
use tech_screen_ai.Session.Drive.Yields.{IsRefusal, Yields}
use tech_screen_ai.Session.View.{SessionView}
use tech_screen_ai.Session.Service.Turns.{Shows}
use tech_screen_ai.Session.Working.{Working}
use tech_screen_ai.Session.World.{Wiring, World, Reply, ShellError}

-- The state that the start of a session leads to, by the verdict on its plan.
abbrev StartedAs : Bool → SessionState → Type 0
StartedAs true s = (s.phase ≡ Phase.intro) × (is_some s.plan ≡ true)
StartedAs false s = (s.phase ≡ Phase.aborted) × (s.plan ≡ none)

abbrev pub plan_is_valid : Externals → Fields → Bool
unfolding validate_plan
plan_is_valid lib plan = is_some (validate_plan lib.model_validate (Json.obj plan))

module _ {V : Type 0} (wiring : Wiring V) where
  -- The answer to a valid plan is the view of the session in INTRO; a refused plan raises, and its
  -- session is ABORTED. Either way the row of `id` holds the session.
  abbrev pub Opened : Uuid → Bool → Reply SessionView × World V → Type 0
  Opened id valid (Reply.done v, w) =
      (valid ≡ true)
      × (after : Working) × (after.session_id ≡ id)
      × (after.state.phase ≡ Phase.intro)
      × IsSound wiring.config after.state
      × IsStored wiring after w
      × Shows after v
  Opened id valid (Reply.failed ShellError.plan_invalid, w) =
      (valid ≡ false)
      × (after : Working) × (after.session_id ≡ id)
      × (after.state.phase ≡ Phase.aborted)
      × IsStored wiring after w
  Opened id valid (Reply.failed e, w) = IsRefusal wiring e

  abbrev first_working : Uuid → Fields → Working
  first_working id plan = record {
    session_id = id;
    state = initial_state id plan wiring.config;
    transcript = [];
  }
