-- ===== src/Orchestrator/Samples.antt =====
-- A two-competency plan, its thresholds, and a session on it: the inputs of the examples.
use tech_screen_ai.Prelude.{◌≡◌, refl, false, none, some, List, [], ◌∷◌, arith, string_eq, ℕ}
use mathlib.Core.Path.{subst}
use tech_screen_ai.Json.{Fields}
use tech_screen_ai.Agents.Output.{InterviewerMove, InterviewerOutput, AssessmentItem}
use tech_screen_ai.Orchestrator.Adjudication.{seconds}
use tech_screen_ai.Orchestrator.Command.{RunInterviewer, PendingCommand}
use tech_screen_ai.Orchestrator.Config.{OrchestratorConfig, IsConfig}
use tech_screen_ai.Orchestrator.Event.{Event}
use tech_screen_ai.Orchestrator.Externals.{Externals, Validates, IsCollisionFree}
use tech_screen_ai.Orchestrator.Invariant.{IsSound}
use tech_screen_ai.Orchestrator.Plan.{PlannedCompetency, PlanSnapshot, IsPlan, float_bound}
use tech_screen_ai.Orchestrator.State.{
  Phase, Awaiting, CoverageCell, SessionState, initial_state, empty_cell,
}

abbrev pub first_competency : PlannedCompetency
first_competency = record {
  node_id = "python.async";
  label_uk = "Асинхронність";
  target_level = 3;
  minutes = 10;
  seed_questions_uk = "q0" ∷ "q1" ∷ [];
  probe_branches_uk = "p0" ∷ [];
}

abbrev pub second_competency : PlannedCompetency
second_competency = record {
  node_id = "sql.indexes";
  label_uk = "Індекси";
  target_level = 2;
  minutes = 10;
  seed_questions_uk = "q2" ∷ [];
  probe_branches_uk = [];
}

abbrev pub sample_plan : PlanSnapshot
sample_plan = record {
  plan_version = 1;
  competencies = first_competency ∷ second_competency ∷ [];
  qa_minutes = 5;
  session_max_minutes = 45;
}

-- `uuid5` that returns the path, and pydantic that accepts every payload as the sample plan.
abbrev pub sample_lib : Externals
sample_lib = record { uuid5 = λ session path. path; model_validate = λ raw. some sample_plan }

-- The values of configs/orchestrator.yaml that a transition reads.
abbrev pub sample_config : OrchestratorConfig
sample_config = record {
  adjudication = record {
    confidence_min = 0x3fe3333333333333;
    max_probes_per_competency = 2;
    min_probe_seconds = 60;
  };
  flags = record { cheat_flags_to_review = 1; drift_to_review = 3 };
  timing = record { candidate_timeout_minutes = 10; tick_seconds = 15 };
  state_schema_version = 1;
}

pub sample_plan-IsPlan : IsPlan sample_plan
unfolding float_bound
sample_plan-IsPlan = record {
  plan_version = omega arith;
  competencies = omega arith;
  each_competency = (
    record {
      node_id = λ e. cc;
      label_uk = λ e. cc;
      target_level = omega arith;
      minutes = omega arith;
      minutes_fit = refl;
      seed_questions_uk = omega arith;
      seed_texts = (λ e. cc, (λ e. cc, tt));
      probe_texts = (λ e. cc, tt);
    },
    (
      record {
        node_id = λ e. cc;
        label_uk = λ e. cc;
        target_level = omega arith;
        minutes = omega arith;
        minutes_fit = refl;
        seed_questions_uk = omega arith;
        seed_texts = (λ e. cc, tt);
        probe_texts = tt;
      },
      tt,
    ),
  );
  session_max_minutes = omega arith;
  session_fits = refl;
  qa_fits = refl;
}

pub sample_lib-Validates : Validates sample_lib
sample_lib-Validates raw p e =
    let same : sample_plan ≡ p = cc in subst IsPlan same sample_plan-IsPlan

pub sample_lib-IsCollisionFree : IsCollisionFree sample_lib
sample_lib-IsCollisionFree session m n e = e

pub sample_config-IsConfig : IsConfig sample_config
sample_config-IsConfig = omega arith

abbrev pub new_session : SessionState
new_session = initial_state "session" Fields.end sample_config

-- The first seed is asked, and its answer awaited.
abbrev pub asked : SessionState
asked = record {
  state_schema_version = 1;
  session_id = "session";
  phase = Phase.tech;
  awaiting = some Awaiting.candidate;
  last_issued_move = some InterviewerMove.ask_seed;
  plan_input = Fields.end;
  plan = some sample_plan;
  tech = record {
    competency_index = 0;
    seed_index = 0;
    probes_used = 0;
    drift_count = 0;
    competency_started_at = some (seconds 10);
    coverage = [];
    pending_assessments = [];
    assessment_focus = [];
  };
  abort_reason = none;
  flagged_for_review = false;
  needs_manual_review = false;
  cheat_flag_count = 0;
  interviewer_failure_streak = 0;
  turn_seq = 2;
  session_started_at = some (seconds 0);
  qa_started_at = none;
  last_candidate_activity = some (seconds 10);
  pending_command = some (PendingCommand.deliver_utterance "turn/1" "…");
}

pub asked-IsSound : IsSound sample_config asked
asked-IsSound = record {
  phase_ok = ((sample_plan-IsPlan, omega arith), refl, refl, refl);
  streak = omega arith;
  timeout = refl;
  probes = omega arith;
}

abbrev pub first_attempt : RunInterviewer
first_attempt = record {
  turn_id = "turn/2";
  move = InterviewerMove.depth_probe;
  competency_node_id = some "python.async";
  move_context = [];
  retry = false;
}

-- A probe is with the interviewer agent.
abbrev pub probing : SessionState
probing = record asked {
  awaiting = some Awaiting.interviewer;
  last_issued_move = some InterviewerMove.depth_probe;
  turn_seq = 3;
  pending_command = some (PendingCommand.run_interviewer first_attempt);
}

abbrev pub spoken : InterviewerMove → InterviewerOutput
spoken move = record { utterance = "…"; internal_move_executed = move }

-- Opening, readiness, the first seed asked and answered, a probe asked.
abbrev pub script : List Event
script =
    Event.session_started (seconds 0)
    ∷ Event.candidate_turn_received "c0" "готовий" (seconds 10)
    ∷ Event.interviewer_reply_ready "turn/1" (spoken InterviewerMove.ask_seed) (seconds 12)
    ∷ Event.candidate_turn_received "c1" "відповідь" (seconds 60)
    ∷ Event.interviewer_reply_ready "turn/2" (spoken InterviewerMove.redirect) (seconds 62)
    ∷ []

abbrev pub confident : CoverageCell
confident = record empty_cell { best_level = some 4; best_confidence = some 0x3fe999999999999a }

abbrev pub scored : ℕ → AssessmentItem
scored level = record {
  rubric_node_id = "python.async";
  level = level;
  confidence = 0x3fe999999999999a;
  rationale_en = "…";
  evidence_spans = "…" ∷ [];
}

abbrev pub after_script : SessionState
after_script = record asked {
  last_issued_move = some InterviewerMove.depth_probe;
  tech = record {
    competency_index = 0;
    seed_index = 0;
    probes_used = 1;
    drift_count = 1;
    competency_started_at = some (seconds 10);
    coverage = [];
    pending_assessments = "c1" ∷ [];
    assessment_focus = ("c1", "python.async") ∷ [];
  };
  turn_seq = 3;
  last_candidate_activity = some (seconds 60);
  pending_command = some (PendingCommand.deliver_utterance "turn/2" "…");
}
