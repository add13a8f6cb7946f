-- ===== src/Orchestrator/Handlers/Guards.antt =====
-- The tests on phase and awaited party in the handlers of app/backend/orchestrator/state_machine.py.
use tech_screen_ai.Prelude.{Bool, true, false, Option, some, string_eq}
use tech_screen_ai.Orchestrator.State.{Phase, Awaiting}

abbrev pub awaits_interviewer : Option Awaiting → Bool
awaits_interviewer (some Awaiting.interviewer) = true
awaits_interviewer _ = false

abbrev pub awaits_candidate : Option Awaiting → Bool
awaits_candidate (some Awaiting.candidate) = true
awaits_candidate _ = false

-- `phase in (Phase.TECH, Phase.QA)`
abbrev pub in_dialogue : Phase → Bool
in_dialogue Phase.tech = true
in_dialogue Phase.qa = true
in_dialogue _ = false

abbrev pub is_qa : Phase → Bool
is_qa Phase.qa = true
is_qa _ = false

abbrev pub is_tech : Phase → Bool
is_tech Phase.tech = true
is_tech _ = false

abbrev pub is_close : Phase → Bool
is_close Phase.close = true
is_close _ = false
