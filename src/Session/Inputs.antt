-- ===== src/Session/Inputs.antt =====
-- The inputs of the agents and of the scripts, assembled by app/backend/services/dev_session.py.
use tech_screen_ai.Prelude.{
  ℕ, zero, suc, ◌-◌, String, Bool, not, Option, none, some, List, [], ◌∷◌, map, length,
  if◌then◌else◌, ◌==◌, string_eq,
}
use mathlib.Core.List.{reverse}
use tech_screen_ai.Prelude.Decimal.{decimal}
use tech_screen_ai.Prelude.Dict.{Dict}
use tech_screen_ai.Json.{Json, Items, Fields}
use tech_screen_ai.Agents.Assessor.{AssessorTurnInput}
use tech_screen_ai.Agents.Interviewer.{InterviewerTurnInputs, RecentTurn, Role}
use tech_screen_ai.Orchestrator.Command.{Uuid, RunInterviewer, MoveContext}
use tech_screen_ai.Orchestrator.Plan.{PlannedCompetency, PlanSnapshot}
use tech_screen_ai.Orchestrator.State.{SessionState}
use tech_screen_ai.Session.Working.{Working, TranscriptEntry, TranscriptRole, is_candidate}
use tech_screen_ai.Session.World.{Wiring}

-- xs[:n] and xs[n:]
unfoldable pub take {ℓ} : {A : Type ℓ} → ℕ → List A → List A
take zero xs = []
take (suc n) [] = []
take (suc n) (x ∷ xs) = x ∷ take n xs

unfoldable pub drop {ℓ} : {A : Type ℓ} → ℕ → List A → List A
drop zero xs = xs
drop (suc n) [] = []
drop (suc n) (x ∷ xs) = drop n xs

-- xs[-n:] for a positive n, and xs[:-n]
unfoldable pub last_items {ℓ} : {A : Type ℓ} → ℕ → List A → List A
unfolding drop
last_items n xs = drop (length xs - n) xs

unfoldable pub all_but {ℓ} : {A : Type ℓ} → ℕ → List A → List A
unfolding take
all_but n xs = take (length xs - n) xs

abbrev pub recent_turns_max : ℕ
recent_turns_max = 8

abbrev pub prior_turns_max : ℕ
prior_turns_max = 4

-- [entry for entry in transcript if entry.text]
unfoldable pub with_text : List TranscriptEntry → List TranscriptEntry
with_text [] = []
with_text (entry ∷ entries) =
    let rest = with_text entries in if entry.text == "" then rest else entry ∷ rest

-- The text of the first entry with the role, or the default.
unfoldable pub first_text : (TranscriptRole → Bool) → String → List TranscriptEntry → String
first_text wanted default [] = default
first_text wanted default (entry ∷ entries) =
    let rest = first_text wanted default entries in if wanted entry.role then entry.text else rest

abbrev to_role : TranscriptRole → Role
to_role TranscriptRole.candidate = Role.candidate
to_role _ = Role.interviewer

abbrev to_recent : TranscriptEntry → RecentTurn
to_recent entry = record { role = to_role entry.role; text = entry.text }

unfoldable pub recent_turns : Working → List RecentTurn
unfolding with_text last_items
recent_turns working = map to_recent (last_items recent_turns_max (with_text working.transcript))

unfoldable pub find_competency : String → List PlannedCompetency → Option PlannedCompetency
find_competency id [] = none
find_competency id (c ∷ cs) =
    let rest = find_competency id cs in if c.node_id == id then some c else rest

unfoldable pub competency_of : SessionState → Option String → Option PlannedCompetency
unfolding find_competency
competency_of state none = none
competency_of state (some id) = elim state.plan [
  | none ↦ none
  | some plan ↦ find_competency id plan.competencies
]

-- A `dict` as a JSON object.
unfoldable pub to_fields : MoveContext → Fields
to_fields [] = Fields.end
to_fields ((key, value) ∷ context) = Fields.field key value (to_fields context)

abbrev payload_or : {A : Type 0} → (A → Fields) → Option A → Fields
payload_or dump none = Fields.end
payload_or dump (some a) = dump a

module _ {V : Type 0} (wiring : Wiring V) where
  unfoldable pub interviewer_inputs : Working → RunInterviewer → InterviewerTurnInputs
  unfolding recent_turns competency_of to_fields
  interviewer_inputs working command = record {
    session_id = working.session_id;
    interview_plan_snapshot = payload_or wiring.plan_payload working.state.plan;
    current_competency =
        payload_or wiring.competency_payload
          (competency_of working.state command.competency_node_id);
    recent_turns = recent_turns working;
    next_planned_move = command.move;
    move_context = to_fields command.move_context;
    candidate_first_name = none;
  }

abbrev role_text : TranscriptRole → String
role_text TranscriptRole.interviewer = "interviewer"
role_text TranscriptRole.candidate = "candidate"
role_text TranscriptRole.system = "system"

unfoldable pub to_items : List TranscriptEntry → Items
to_items [] = Items.nil
to_items (entry ∷ entries) =
    Items.cons
      (Json.obj (
        Fields.field "role" (Json.str (role_text entry.role))
          (Fields.field "text" (Json.str entry.text) Fields.end)))
      (to_items entries)

abbrev is_not_candidate : TranscriptRole → Bool
is_not_candidate role = not (is_candidate role)

unfoldable pub assessor_inputs : Working → Uuid → String → AssessorTurnInput
unfolding with_text first_text all_but last_items to_items
assessor_inputs working id focus =
    let exchanges = with_text working.transcript in
    let answer = first_text is_candidate "" (reverse exchanges) in
    let question = first_text is_not_candidate "" (reverse (all_but 1 exchanges)) in
    record {
      session_id = working.session_id;
      turn_id = id;
      competency_focus = focus;
      rubric_snapshot_subset = Items.nil;
      turn =
          Fields.field "question" (Json.str question)
            (Fields.field "answer" (Json.str answer) Fields.end);
      prior_turns = to_items (last_items prior_turns_max (all_but 2 exchanges));
      turn_metadata = Fields.end;
    }

abbrev area_of : Option PlanSnapshot → String → String
area_of none default = default
area_of (some plan) default = elim plan.competencies [ [] ↦ default | c ∷ _ ↦ c.label_uk ]

abbrev minutes_of : Option PlanSnapshot → String
minutes_of none = "30"
minutes_of (some plan) = decimal plan.session_max_minutes

-- A plan that was validated has a competency, so the empty case of `area_of` is not reached.
unfoldable pub script_variables : Working → Dict String String
script_variables working =
    ("FirstName", "колего")
    ∷ ("Area", area_of working.state.plan "технічне інтерв'ю")
    ∷ ("ExpectedMinutes", minutes_of working.state.plan)
    ∷ []
