-- ===== src/Llm/Audit/Retries.antt =====
-- The retry loop calls the backend once for each attempt that it counts, and touches nothing else.
use tech_screen_ai.Prelude.{ℕ, zero, suc, ◌+◌, ◌≤◌, ◌≡◌, refl, ◌∙◌, Bool, true, false, arith}
use tech_screen_ai.Llm.Audit.{Log, logging, unlogged, with_call}
use tech_screen_ai.Llm.Backend.{
  BackendReply, Attempted, settled, is_retryable, waited, retry_if, attempt_from, call_with_retries,
}

-- The calls that an end of the loop admits, from attempt `n` with `left` more after it.
abbrev pub Counts : ℕ → ℕ → ℕ → Attempted → Type 0
Counts n left generated (Attempted.got raw k) = (generated ≡ k) × (n ≤ k) × (k ≤ n + left)
Counts n left generated (Attempted.gave_up e k) = (generated ≡ k) × (n ≤ k) × (k ≤ n + left)
Counts n left generated Attempted.ran_out = (n ≤ generated) × (generated ≤ n + left)
Counts n left generated Attempted.broke = (n ≤ generated) × (generated ≤ n + left)

abbrev pub Looped : {V : Type 0} → ℕ → ℕ → Log → Attempted × (V × Log) → Type 0
Looped n left log (attempted, (v, later)) =
    (later.records ≡ log.records)
    × (later.charges ≡ log.charges)
    × Counts n left later.generated attempted

settled-Counts :
    (n left generated : ℕ) (reply : BackendReply)
    → generated ≡ n
    → Counts n left generated (settled n reply)
unfolding settled
settled-Counts n left generated reply e = ground arith

Counts-weaken :
    (n left generated : ℕ) (attempted : Attempted)
    → Counts (suc n) left generated attempted
    → Counts n (suc left) generated attempted
Counts-weaken n left generated attempted h = ground arith

Looped-weaken :
    {V : Type 0} (n left : ℕ) (before log : Log) (r : Attempted × (V × Log))
    → log.records ≡ before.records
    → log.charges ≡ before.charges
    → Looped (suc n) left log r
    → Looped n (suc left) before r
Looped-weaken n left before log (attempted, (v, later)) records charges (h, k, counts) =
    (h ∙ records, k ∙ charges, Counts-weaken n left later.generated attempted counts)

module _ {V : Type 0} (generate : ℕ → V → BackendReply × V) (sleep : ℕ → V → Bool × V) where
  abbrev calls : ℕ → V × Log → BackendReply × (V × Log)
  calls n = logging with_call (generate n)

  abbrev sleeps : ℕ → V × Log → Bool × (V × Log)
  sleeps n = unlogged (sleep n)

  waited-Looped :
      (n left : ℕ) (again : V × Log → Attempted × (V × Log)) (ended : Bool) (v : V)
      (before log : Log)
      → log.records ≡ before.records
      → log.charges ≡ before.charges
      → log.generated ≡ n
      → ((u : V) → Looped (suc n) left log (again (u, log)))
      → Looped n (suc left) before (waited calls sleeps again (ended, (v, log)))
  unfolding waited
  waited-Looped n left again true v before log records charges generated h =
      (records, charges, (omega arith, omega arith))
  waited-Looped n left again false v before log records charges generated h =
      Looped-weaken n left before log (again (v, log)) records charges (h v)

  retry_if-Looped :
      (n left : ℕ) (again : V × Log → Attempted × (V × Log)) (retries : Bool) (reply : BackendReply)
      (v : V) (log : Log)
      → suc log.generated ≡ n
      → ((u : V) → Looped (suc n) left (with_call log) (again (u, with_call log)))
      → Looped n (suc left) log (retry_if calls sleeps retries n again (reply, (v, with_call log)))
  unfolding retry_if
  retry_if-Looped n left again true reply v log e h =
      waited-Looped n left again (sleep n v).0 (sleep n v).1 log (with_call log) refl refl e h
  retry_if-Looped n left again false reply v log e h =
      (refl, refl, settled-Counts n (suc left) _ reply e)

  attempt_from-Looped :
      (left n : ℕ) (v : V) (log : Log)
      → suc log.generated ≡ n
      → Looped n left log (attempt_from calls sleeps left n (v, log))
  unfolding attempt_from retry_if
  attempt_from-Looped zero n v log e = (refl, refl, settled-Counts n 0 _ (generate n v).0 e)
  attempt_from-Looped (suc left) n v log e =
      retry_if-Looped n left (attempt_from calls sleeps left (suc n))
        (is_retryable (generate n v).0) (generate n v).0 (generate n v).1 log e
        (λ u. attempt_from-Looped left (suc n) u (with_call log) (omega arith))

  pub call_with_retries-Looped :
      (v : V) (log : Log)
      → log.generated ≡ 0
      → Looped 1 2 log (call_with_retries calls sleeps (v, log))
  unfolding call_with_retries
  call_with_retries-Looped v log e = attempt_from-Looped 2 1 v log (omega arith)
