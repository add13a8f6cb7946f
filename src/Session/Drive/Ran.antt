-- ===== src/Session/Drive/Ran.antt =====
-- What executing commands leaves: the state as it was, a longer chat log, and events that are no
-- dearer than the commands.
use tech_screen_ai.Prelude.{
  ℕ, String, true, ◌+◌, ◌≤◌, ◌≡◌, ap, ◌∙◌, is_some, List, [], ◌∷◌, ◌++◌, length, length-append,
  arith,
}
use mathlib.Core.List.{append_assoc}
use tech_screen_ai.Prelude.Dict.{Dict}
use tech_screen_ai.Orchestrator.Event.{Event}
use tech_screen_ai.Orchestrator.State.{SessionState}
use tech_screen_ai.Session.Drive.Rank.{rank}
use tech_screen_ai.Session.Working.{Working, TranscriptEntry}
use tech_screen_ai.Session.World.{Wiring, World}

abbrev pub events_rank : SessionState → List Event → ℕ
events_rank s [] = 0
events_rank s (e ∷ events) = rank s e + events_rank s events

-- Every candidate-facing file can be read.
abbrev pub IsReadable : {V : Type 0} → Wiring V → Type 0
IsReadable wiring =
    (path : String) (variables : Dict String String)
    → is_some (wiring.render_script path variables) ≡ true

-- What commands of the given cost have done.
pub record Ran {V : Type 0} (cost asked : ℕ) (before : Working) (w : World V) (after : Working)
    (events : List Event) (w' : World V) : Type 0 where
  pub state : after.state ≡ before.state
  pub session_id : after.session_id ≡ before.session_id
  pub growth : List TranscriptEntry
  pub transcript : after.transcript ≡ before.transcript ++ growth
  pub sessions : w'.tables.sessions ≡ w.tables.sessions
  pub transcripts : w'.tables.transcripts ≡ w.tables.transcripts
  pub cheap : events_rank before.state events ≤ cost
  pub few : length events ≤ asked

abbrev pub RanAs :
    {V : Type 0} → ℕ → ℕ → Working → World V → Working × List Event → World V → Type 0
RanAs cost asked before w (after, events) w' = Ran cost asked before w after events w'

events_rank-append :
    (s : SessionState) (es fs : List Event)
    → events_rank s (es ++ fs) ≡ events_rank s es + events_rank s fs
events_rank-append s [] fs = omega arith
events_rank-append s (e ∷ es) fs = omega (arith, events_rank-append s es fs)

-- One after the other; the second cost is counted in the first state.
pub Ran-then :
    {V : Type 0} {k n j l m : ℕ} {before mid after : Working} {es fs : List Event} {w v u : World V}
    → Ran k n before w mid es v
    → Ran j m mid v after fs u
    → j ≡ l
    → Ran (k + l) (n + m) before w after (es ++ fs) u
Ran-then {before = before} {mid} {after} {es} {fs} {w} {v} {u} p q e = record {
  state = q.state ∙ p.state;
  session_id = q.session_id ∙ p.session_id;
  growth = p.growth ++ q.growth;
  transcript =
      q.transcript
      ∙ ap (λ t. t ++ q.growth) p.transcript
      ∙ append_assoc before.transcript p.growth q.growth;
  sessions = q.sessions ∙ p.sessions;
  transcripts = q.transcripts ∙ p.transcripts;
  cheap = omega (
    arith,
    p.cheap,
    q.cheap,
    e,
    events_rank-append before.state es fs,
    ap (λ s. events_rank s fs) p.state,
  );
  few = omega (arith, p.few, q.few, length-append es fs);
}
