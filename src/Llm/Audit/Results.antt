-- ===== src/Llm/Audit/Results.antt =====
-- A result of the backend is charged, or rejected for its schema, and traced either way.
use tech_screen_ai.Prelude.{
  ℕ, ◌≤◌, ◌≡◌, refl, String, Bool, true, false, Option, none, some, is_some, arith, inl, string_eq,
}
use tech_screen_ai.Prelude.Int.{pos}
use tech_screen_ai.Json.{Fields}
use tech_screen_ai.Agents.Call.{ModelCallRequest, WrapperError}
use tech_screen_ai.Llm.Audit.{Log, with_charge, audited, Audited}
use tech_screen_ai.Llm.Backend.{RawBackendResult}
use tech_screen_ai.Llm.Client.{
  build_trace_record, stamped, persist_trace, succeeded, charged, charge, reject, cost_of, checked,
  receive,
}
use tech_screen_ai.Llm.Reply.{Client, ModelReply, rejection, success}
use tech_screen_ai.Llm.Pricing.{PricingTable, cost_for}
use tech_screen_ai.Llm.Schema.{Parsed, parse_and_validate}
use tech_screen_ai.Llm.Trace.{TraceOutcome, TraceRecord}
use tech_screen_ai.Llm.Audit.Endings.{Fresh, halted-Audited, Traced-of_ending, fail-Audited}

-- A model that has a price for no tokens has one for any number of them.
cost_for-known :
    (table : PricingTable) (model : String) (i o : ℕ)
    → is_some (cost_for table model (pos 0) (pos 0)) ≡ true
    → is_some (cost_for table model (pos i) (pos o)) ≡ true
unfolding cost_for
cost_for-known table model i o h = ground arith

module _ {V : Type 0} (client : Client V) (request : ModelCallRequest) where
  charged-Audited :
      (started : ℕ) (model : String) (raw : RawBackendResult) (n cost : ℕ) (parsed : Option Fields)
      (ended : Bool) (v : V) (log : Log)
      → Fresh log
      → log.generated ≡ n
      → 1 ≤ n
      → n ≤ 3
      → Audited request (
          charged
            (audited client)
            request
            started
            model
            raw
            n
            cost
            parsed
            (ended, (v, with_charge cost log)))
  unfolding charged succeeded persist_trace stamped build_trace_record
  charged-Audited started model raw n cost parsed true v log fresh e first last = fresh.records
  charged-Audited started model raw n cost parsed false v log fresh e first last =
      let traced = λ (r : TraceRecord). λ (o : r.outcome ≡ TraceOutcome.ok). λ (a : r.attempts ≡ n).
        λ (s : r.session_id ≡ request.session_id). λ (g : r.agent ≡ request.agent).
          λ (c : cost ≡ r.cost_usd).
            Traced-of_ending client request (success raw n cost parsed) r (with_charge cost log) o a
              s g fresh.records first last (omega (arith, e, last)) (cc (fresh.charges, c)) in
      halted-Audited client request (ModelReply.returned _) _ _ _
        (
          _,
          traced _ refl refl refl refl refl,
          record {
            outcome = refl;
            trace_id = refl;
            cost = refl;
            parsed = refl;
            model = refl;
            attempts = refl;
            generated = e;
          },
        )
        (_, traced _ refl refl refl refl refl, tt)

  charge-Audited :
      (started : ℕ) (model : String) (raw : RawBackendResult) (n : ℕ) (parsed : Option Fields)
      (cost : Option ℕ) (v : V) (log : Log)
      → is_some cost ≡ true
      → Fresh log
      → log.generated ≡ n
      → 1 ≤ n
      → n ≤ 3
      → Audited request (charge (audited client) request started model raw n parsed cost (v, log))
  unfolding charge
  charge-Audited started model raw n parsed none v log known fresh e first last =
      absurd (ground arith)
  charge-Audited started model raw n parsed (some cost) v log known fresh e first last =
      charged-Audited started model raw n cost parsed (client.add request.session_id cost v).0
        (client.add request.session_id cost v).1 log fresh e first last

  reject-Audited :
      (started : ℕ) (model : String) (raw : RawBackendResult) (n : ℕ) (cost : Option ℕ) (v : V)
      (log : Log)
      → is_some cost ≡ true
      → Fresh log
      → log.generated ≡ n
      → 1 ≤ n
      → n ≤ 3
      → Audited request (reject (audited client) request started model raw n cost (v, log))
  unfolding reject
  reject-Audited started model raw n none v log known fresh e first last = absurd (ground arith)
  reject-Audited started model raw n (some cost) v log known fresh e first last =
      fail-Audited client request started model (rejection raw n cost)
        (WrapperError.schema_error raw.text) v log fresh
        (record {
          reports = (inl refl, omega (arith, e, first));
          first = first;
          last = last;
          calls = omega (arith, e, last);
          free = λ r. refl;
        })

  checked-Audited :
      (started : ℕ) (table : PricingTable) (model : String) (raw : RawBackendResult) (n : ℕ)
      (parsed : Parsed) (v : V) (log : Log)
      → is_some (cost_for table model (pos 0) (pos 0)) ≡ true
      → Fresh log
      → log.generated ≡ n
      → 1 ≤ n
      → n ≤ 3
      → Audited request (checked (audited client) request started table model raw n parsed (v, log))
  unfolding checked cost_of
  checked-Audited started table model raw n Parsed.misfits v log known fresh e first last =
      reject-Audited started model raw n _ v log
        (cost_for-known table model raw.input_tokens raw.output_tokens known) fresh e first last
  checked-Audited started table model raw n Parsed.broken v log known fresh e first last =
      fresh.records
  checked-Audited started table model raw n (Parsed.fits parsed) v log known fresh e first last =
      charge-Audited started model raw n (some parsed) _ v log
        (cost_for-known table model raw.input_tokens raw.output_tokens known) fresh e first last

  -- With a price for the model, a result of the backend is charged or rejected, and traced.
  pub receive-Audited :
      (started : ℕ) (table : PricingTable) (model : String) (raw : RawBackendResult) (n : ℕ)
      (schema : Option Fields) (v : V) (log : Log)
      → is_some (cost_for table model (pos 0) (pos 0)) ≡ true
      → Fresh log
      → log.generated ≡ n
      → 1 ≤ n
      → n ≤ 3
      → Audited request (receive (audited client) request started table model raw n schema (v, log))
  unfolding receive checked cost_of
  receive-Audited started table model raw n none v log known fresh e first last =
      charge-Audited started model raw n none _ v log
        (cost_for-known table model raw.input_tokens raw.output_tokens known) fresh e first last
  receive-Audited started table model raw n (some schema) v log known fresh e first last =
      checked-Audited started table model raw n (parse_and_validate client.loads raw.text schema) v
        log known fresh e first last
