-- ===== src/Session/Drive/Yields.antt =====
-- Total correctness in the shell's monad: the action returns, and what it returns satisfies a
-- postcondition, unless a collaborator refused or crashed.
use tech_screen_ai.Prelude.{◌≡◌, false}
use tech_screen_ai.Json.{Json}
use tech_screen_ai.Agents.Call.{ModelCallRequest, CallOutcome, is_request}
use tech_screen_ai.Agents.Interviewer.{InterviewerTurnInputs, interviewer_request}
use tech_screen_ai.Session.World.{Wiring, World, Tables, Reply, ShellError, next}

module _ {V : Type 0} (wiring : Wiring V) where
  -- The exceptions of the collaborators, each with its cause: a document that JSONB refuses, a
  -- request out of the bounds of `ModelCallRequest`, a call of the model that ends in no result and
  -- no `WrapperError`.
  abbrev pub IsRefusal : ShellError → Type 0
  IsRefusal ShellError.storage_refused = (document : Json) × (wiring.accepts document ≡ false)
  IsRefusal ShellError.request_invalid =
      (inputs : InterviewerTurnInputs) × (is_request (interviewer_request wiring.interviewer inputs)
        ≡ false)
  IsRefusal ShellError.call_crashed =
      (request : ModelCallRequest) × (tables : Tables) × (v : V) × ((wiring.call_model request
          tables v).0
        ≡ CallOutcome.crashed)
  IsRefusal _ = ⊥

  abbrev pub Yields : {A : Type 0} → (A → World V → Type 0) → Reply A × World V → Type 0
  Yields P (Reply.done a, w) = P a w
  Yields P (Reply.failed e, w) = IsRefusal e

  pub Yields-next :
      {A B : Type 0} (P : A → World V → Type 0) (Q : B → World V → Type 0)
      (f : A → World V → Reply B × World V) (r : Reply A × World V)
      → Yields P r
      → ((a : A) (w : World V) → P a w → Yields Q (f a w))
      → Yields Q (next f r)
  Yields-next P Q f (Reply.done a, w) h g = g a w h
  Yields-next P Q f (Reply.failed e, w) h g = h

  pub Yields-weaken :
      {A : Type 0} (P Q : A → World V → Type 0) (r : Reply A × World V)
      → Yields P r
      → ((a : A) (w : World V) → P a w → Q a w)
      → Yields Q r
  Yields-weaken P Q (Reply.done a, w) h g = g a w h
  Yields-weaken P Q (Reply.failed e, w) h g = h

  -- The same where what follows may raise.
  pub next-Yields :
      {A B : Type 0} (P : A → World V → Type 0) (Q : Reply B × World V → Type 0)
      (f : A → World V → Reply B × World V) (r : Reply A × World V)
      → Yields P r
      → ((e : ShellError) (w : World V) → IsRefusal e → Q (Reply.failed e, w))
      → ((a : A) (w : World V) → P a w → Q (f a w))
      → Q (next f r)
  next-Yields P Q f (Reply.done a, w) h lost g = g a w h
  next-Yields P Q f (Reply.failed e, w) h lost g = lost e w h
