-- ===== src/Agents/Retry.antt =====
-- The retry policy of the agents: how often the model is called, and when a turn is given up.
use tech_screen_ai.Prelude.{ℕ, Bool, true, false, ◌+◌, ◌≤◌, ◌≡◌, refl, ◌↔◌, ◌⊎◌, inl, inr, arith}
use tech_screen_ai.Agents.Call.{
  ModelCallRequest, CallOutcome, Attempt, TurnResult, error_attempt, is_request, with_request,
  with_retry, second_try, after_retry,
}
use tech_screen_ai.Agents.Interviewer.{InterviewerLibrary, validate_result}
use tech_screen_ai.Agents.Assessor.{
  AssessorTurnInput, AssessorLibrary, assessor_request, score_once, run_assessor_turn,
}

-- A model that also counts its calls.
abbrev pub counted :
    {W : Type 0}
    → (ModelCallRequest → W → CallOutcome × W)
    → ModelCallRequest
    → ℕ × W
    → CallOutcome × (ℕ × W)
counted call_model request (n, w) = let (o, later) = call_model request w in (o, (n + 1, later))

abbrev pub IsMiss : {A : Type 0} → Attempt A → Type 0
IsMiss (Attempt.missed m) = Unit
IsMiss _ = ⊥

abbrev pub IsInvalid : {A : Type 0} → TurnResult A → Type 0
IsInvalid (TurnResult.output_invalid m n) = Unit
IsInvalid _ = ⊥

-- One call, or two exactly when the first is a contract miss; the turn is given up exactly when
-- both are.
abbrev pub RetriesOnce : {W A : Type 0} → Attempt A → Attempt A → TurnResult A × (ℕ × W) → Type 0
RetriesOnce first second (result, (calls, w)) =
    (1 ≤ calls)
    × (calls ≤ 2)
    × ((calls ≡ 2) ↔ IsMiss first)
    × (IsInvalid result ↔ (IsMiss first × IsMiss second))

-- An attempt that makes one call, told apart by its outcome.
second_try-RetriesOnce :
    {W A : Type 0} (attempt : ℕ × W → Attempt A × (ℕ × W)) (w v : W) (first second : Attempt A)
    → attempt (1, w) ≡ (second, (2, v))
    → RetriesOnce first second (second_try attempt (first, (1, w)))
unfolding second_try after_retry
second_try-RetriesOnce attempt w v (Attempt.accepted a) second e = ground arith
second_try-RetriesOnce attempt w v (Attempt.failed a) second e = ground arith
second_try-RetriesOnce attempt w v Attempt.crashed second e = ground arith
second_try-RetriesOnce attempt w v (Attempt.missed m) Attempt.crashed e = rw e (ground arith)
second_try-RetriesOnce attempt w v (Attempt.missed m) (Attempt.accepted a) e = rw e (ground arith)
second_try-RetriesOnce attempt w v (Attempt.missed m) (Attempt.missed n) e = rw e (ground arith)
second_try-RetriesOnce attempt w v (Attempt.missed m) (Attempt.failed a) e = rw e (ground arith)

-- With a request out of bounds the model is not called at all.
abbrev pub CallsAs : {W A : Type 0} → Bool → Attempt A → Attempt A → TurnResult A × (ℕ × W) → Type 0
CallsAs true first second r = RetriesOnce first second r
CallsAs false first second (result, (calls, w)) =
    (result ≡ TurnResult.request_invalid) × (calls ≡ 0)

with_request-CallsAs :
    {W A : Type 0} (valid : Bool) (attempt : ℕ × W → Attempt A × (ℕ × W)) (w u v : W)
    (first second : Attempt A)
    → attempt (0, w) ≡ (first, (1, u))
    → attempt (1, u) ≡ (second, (2, v))
    → CallsAs valid first second (with_request valid attempt (0, w))
unfolding with_request with_retry
with_request-CallsAs false attempt w u v first second e f = (refl, refl)
with_request-CallsAs true attempt w u v first second e f =
    rw e (second_try-RetriesOnce attempt u v first second f)

module _ {W : Type 0} (call_model : ModelCallRequest → W → CallOutcome × W) where
  -- A turn of the Assessor whose request is within the bounds of ModelCallRequest calls the model
  -- once, or twice exactly when the first attempt is a contract miss, and raises
  -- AssessorOutputInvalid exactly when both attempts are. With a request out of bounds it raises
  -- the ValidationError of the request and does not call the model.
  pub assessor-RetriesOnce :
      (lib : AssessorLibrary) (inputs : AssessorTurnInput) (w : W)
      → let first = score_once lib call_model inputs w in
        let second = score_once lib call_model inputs first.1 in
        CallsAs
          (is_request (assessor_request lib inputs))
          first.0
          second.0
          (run_assessor_turn lib (counted call_model) inputs (0, w))
  unfolding run_assessor_turn score_once
  assessor-RetriesOnce lib inputs w =
      let first = score_once lib call_model inputs w in
      let second = score_once lib call_model inputs first.1 in
      with_request-CallsAs (is_request (assessor_request lib inputs))
        (score_once lib (counted call_model) inputs) w first.1 second.1 first.0 second.0 refl refl

-- Only a request out of bounds is refused.
pub request_invalid-is_request :
    {W A : Type 0} (valid : Bool) (attempt : W → Attempt A × W) (w : W)
    → (with_request valid attempt w).0 ≡ TurnResult.request_invalid
    → valid ≡ false
unfolding with_request with_retry second_try after_retry
request_invalid-is_request false attempt w e = refl
request_invalid-is_request true attempt w e = ground arith

second_try-crashed :
    {W A : Type 0} (attempt : W → Attempt A × W) (first : Attempt A) (w : W)
    → (second_try attempt (first, w)).0 ≡ TurnResult.crashed
    → (first ≡ Attempt.crashed) ⊎ ((attempt w).0 ≡ Attempt.crashed)
unfolding second_try after_retry
second_try-crashed attempt (Attempt.accepted a) w e = absurd (ground arith)
second_try-crashed attempt (Attempt.failed x) w e = absurd (ground arith)
second_try-crashed attempt Attempt.crashed w e = inl refl
second_try-crashed attempt (Attempt.missed m) w e = inr (ground arith)

-- Only an attempt that crashes makes a turn crash.
pub crashed-attempt :
    {W A : Type 0} (valid : Bool) (attempt : W → Attempt A × W) (w : W)
    → (with_request valid attempt w).0 ≡ TurnResult.crashed
    → (u : W) × ((attempt u).0 ≡ Attempt.crashed)
unfolding with_request with_retry
crashed-attempt false attempt w e = absurd (ground arith)
crashed-attempt true attempt w e = elim (second_try-crashed attempt (attempt w).0 (attempt w).1 e) [
  | inl first ↦ (w, first)
  | inr second ↦ ((attempt w).1, second)
]

-- Only a call that crashes makes an attempt of the Interviewer crash.
pub validate_result-crashed :
    (lib : InterviewerLibrary) (outcome : CallOutcome)
    → validate_result lib outcome ≡ Attempt.crashed
    → outcome ≡ CallOutcome.crashed
unfolding validate_result error_attempt
validate_result-crashed lib outcome e = ground arith
