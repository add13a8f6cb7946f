-- ===== src/Llm/Trace.antt =====
-- app/backend/llm/trace.py: the record of a call, less its message, and the sink in memory.
use tech_screen_ai.Prelude.{
  ℕ, String, Bool, true, false, Option, List, [], ◌∷◌, ◌++◌, length, leb, if◌then◌else◌,
}
use tech_screen_ai.Json.{Fields}
use tech_screen_ai.Orchestrator.Command.{Uuid}
use tech_screen_ai.Orchestrator.State.{Time}

pub data TraceOutcome : Type 0 where
  ok schema_error timeout upstream_unavailable budget_exceeded config_error : TraceOutcome
  trace_write_error : TraceOutcome

pub record TraceRecord : Type 0 where
  pub id : Uuid
  pub created_at : Time
  pub agent : String
  pub session_id : Uuid
  pub model : String
  pub model_version : Option String
  pub prompt_sha256 : String
  pub outcome : TraceOutcome
  pub attempts : ℕ
  pub latency_ms : ℕ
  pub input_tokens : ℕ
  pub output_tokens : ℕ
  pub cost_usd : ℕ
  pub response_text : Option String
  pub parsed : Option Fields

-- `InMemoryTraceSink.write`; at `true` it has raised `TraceWriteError`.
unfoldable pub write_to_memory : ℕ → TraceRecord → List TraceRecord → Bool × List TraceRecord
write_to_memory capacity record_ records =
    if leb capacity (length records) then (true, records) else (false, records ++ record_ ∷ [])
