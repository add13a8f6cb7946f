-- ===== src/Llm/Audit/Endings.antt =====
-- A call that fails writes its one record, or raises the error of the sink in its place.
use tech_screen_ai.Prelude.{
  ℕ, ◌≤◌, ◌≡◌, refl, sym, ap, ◌∙◌, String, Bool, true, false, [], ◌∷◌, arith, string_eq,
}
use tech_screen_ai.Agents.Call.{ModelCallRequest, WrapperError}
use tech_screen_ai.Llm.Audit.{
  Log, with_record, audited, Reports, CallsFit, charges_for, Traced, Audited,
}
use tech_screen_ai.Llm.Client.{build_trace_record, stamped, halted, persist_trace, fail}
use tech_screen_ai.Llm.Reply.{Client, ModelReply, Ending}
use tech_screen_ai.Llm.Trace.{TraceRecord}

-- Nothing is traced or charged yet.
pub record Fresh (log : Log) : Type 0 where
  pub records : log.records ≡ []
  pub charges : log.charges ≡ []

-- An ending that may be reported as the error, after `generated` calls of the backend.
pub record Fails (ending : Ending) (e : WrapperError) (generated : ℕ) : Type 0 where
  pub reports : Reports e ending.outcome generated
  pub first : 1 ≤ ending.attempts
  pub last : ending.attempts ≤ 3
  pub calls : CallsFit ending.outcome generated
  pub free : (r : TraceRecord) → charges_for r ending.outcome ≡ []

module _ {V : Type 0} (client : Client V) (request : ModelCallRequest) where
  pub halted-Audited :
      (reply : ModelReply) (ended : Bool) (v : V) (log : Log)
      → Audited request (reply, (v, log))
      → Audited request (ModelReply.raised WrapperError.trace_write_error, (v, log))
      → Audited request (halted (audited client) request reply (ended, (v, log)))
  unfolding halted
  halted-Audited reply true v log h k = k
  halted-Audited reply false v log h k = h

  pub Traced-of_ending :
      (ending : Ending) (r : TraceRecord) (log : Log)
      → r.outcome ≡ ending.outcome
      → r.attempts ≡ ending.attempts
      → r.session_id ≡ request.session_id
      → r.agent ≡ request.agent
      → log.records ≡ []
      → 1 ≤ ending.attempts
      → ending.attempts ≤ 3
      → CallsFit ending.outcome log.generated
      → log.charges ≡ charges_for r ending.outcome
      → Traced request r (with_record r log)
  Traced-of_ending ending r log o a s g records first last calls charges = record {
    once = ap (λ rs. r ∷ rs) records;
    session = s;
    agent = g;
    first = omega (arith, a, first);
    last = omega (arith, a, last);
    calls = rw o calls;
    charges = charges ∙ rw o refl;
  }

  pub fail-Audited :
      (started : ℕ) (model : String) (ending : Ending) (e : WrapperError) (v : V) (log : Log)
      → Fresh log
      → Fails ending e log.generated
      → Audited request (fail (audited client) request started model ending e (v, log))
  unfolding fail persist_trace stamped build_trace_record
  fail-Audited started model ending e v log fresh fails =
      let traced = λ (r : TraceRecord). λ (o : r.outcome ≡ ending.outcome).
        λ (a : r.attempts ≡ ending.attempts). λ (s : r.session_id ≡ request.session_id).
          λ (g : r.agent ≡ request.agent).
            Traced-of_ending ending r log o a s g fresh.records fails.first fails.last fails.calls
              (fresh.charges ∙ sym (fails.free r)) in
      halted-Audited (ModelReply.raised e) _ _ _ (_, traced _ refl refl refl refl, fails.reports)
        (_, traced _ refl refl refl refl, tt)
