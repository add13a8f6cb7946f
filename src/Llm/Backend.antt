-- ===== src/Llm/Backend.antt =====
-- app/backend/llm/_backend_protocol.py, and the retry loop of vertex.py over it.
use tech_screen_ai.Prelude.{ℕ, zero, suc, ◌-◌, String, Bool, true, false}
use tech_screen_ai.Agents.Call.{WrapperError}

pub record RawBackendResult : Type 0 where
  pub text : String
  pub input_tokens : ℕ
  pub output_tokens : ℕ
  pub model : String
  pub model_version : String

-- How `generate` ends. `connection` is `ConnectionError`, `wrapper` an error of the wrapper that the
-- backend raises itself, `other` an exception of no known class. `out_of_time` is `TimeoutError`: the
-- backend's own, or that of `asyncio.wait_for`, which cancels the call.
pub data BackendReply : Type 0 where
  result : RawBackendResult → BackendReply
  transient connection deadline caller upstream : BackendReply
  wrapper : WrapperError → BackendReply
  out_of_time other : BackendReply

-- How the loop ends: a result or an error of the wrapper with the number of attempts, or one of the
-- two exceptions that it lets pass.
pub data Attempted : Type 0 where
  got : RawBackendResult → (attempts : ℕ) → Attempted
  gave_up : WrapperError → (attempts : ℕ) → Attempted
  ran_out broke : Attempted

-- How an attempt ends that is not followed by another: `_classify_provider_error` and the early
-- conversions of the loop.
unfoldable pub settled : ℕ → BackendReply → Attempted
settled n (BackendReply.result raw) = Attempted.got raw n
settled n BackendReply.transient = Attempted.gave_up WrapperError.upstream_unavailable n
settled n BackendReply.connection = Attempted.gave_up WrapperError.upstream_unavailable n
settled n BackendReply.deadline = Attempted.gave_up WrapperError.timeout n
settled n BackendReply.caller = Attempted.gave_up WrapperError.config_error n
settled n BackendReply.upstream = Attempted.gave_up WrapperError.upstream_unavailable n
settled n (BackendReply.wrapper e) = Attempted.gave_up e n
settled n BackendReply.out_of_time = Attempted.ran_out
settled n BackendReply.other = Attempted.broke

-- `_RETRYABLE_EXCEPTIONS`
abbrev pub is_retryable : BackendReply → Bool
is_retryable BackendReply.transient = true
is_retryable BackendReply.connection = true
is_retryable _ = false

abbrev pub max_attempts : ℕ
max_attempts = 3

-- `generate` is given the number of the attempt; in the `sleep` after an attempt time runs out at
-- `true`.
module _ {V : Type 0} (generate : ℕ → V → BackendReply × V) (sleep : ℕ → V → Bool × V) where
  unfoldable pub waited : (V → Attempted × V) → Bool × V → Attempted × V
  waited again (true, v) = (Attempted.ran_out, v)
  waited again (false, v) = again v

  -- A retryable error, with an attempt left.
  unfoldable pub retry_if : Bool → ℕ → (V → Attempted × V) → BackendReply × V → Attempted × V
  unfolding settled waited
  retry_if true n again (reply, v) = waited again (sleep n v)
  retry_if false n again (reply, v) = (settled n reply, v)

  -- Attempt number `n`, with `left` more after it.
  unfoldable pub attempt_from : ℕ → ℕ → V → Attempted × V
  unfolding settled retry_if
  attempt_from zero n v = retry_if false n (λ u. (Attempted.broke, u)) (generate n v)
  attempt_from (suc left) n v =
      retry_if (is_retryable (generate n v).0) n (attempt_from left (suc n)) (generate n v)

  unfoldable pub call_with_retries : V → Attempted × V
  unfolding attempt_from
  call_with_retries v = attempt_from (max_attempts - 1) 1 v
