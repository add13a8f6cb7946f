-- ===== src/Orchestrator/Coverage/Pending.antt =====
-- The pending assessments of a state: every one has the node that it was scheduled against.
use tech_screen_ai.Prelude.{
  ◌≡◌, false, List, [], ◌∷◌, ◌++◌, arith, is_some, if◌then◌else◌, ◌==◌, string_eq, string_eq_iff,
  ◌||◌,
}
use tech_screen_ai.Prelude.Dict.{lookup, lookup-erase}
use tech_screen_ai.Orchestrator.Command.{Uuid}
use tech_screen_ai.Orchestrator.State.{TechState}
use tech_screen_ai.Orchestrator.Coverage.{contains, without, drop_pending}

contains-without :
    (id k : Uuid) (ids : List Uuid)
    → contains k (without id ids) ≡ (if id == k then false else contains k ids)
unfolding contains without
contains-without id k [] = ground arith
contains-without id k (t ∷ ts) =
    ground
      (arith, contains-without id k ts, string_eq_iff t id, string_eq_iff t k, string_eq_iff id k)

pub contains-append :
    (k id : Uuid) (ids : List Uuid) → contains k (ids ++ id ∷ []) ≡ (contains k ids || id == k)
unfolding contains
contains-append k id [] = ground arith
contains-append k id (t ∷ ts) = ground (arith, contains-append k id ts)

-- The turn `k` is pending exactly when the node that it was scheduled against is remembered.
abbrev pub AttributedAt : Uuid → TechState → Type 0
AttributedAt k tech = contains k tech.pending_assessments ≡ is_some (lookup k tech.assessment_focus)

pub drop_pending-AttributedAt :
    (k id : Uuid) (tech : TechState) → AttributedAt k tech → AttributedAt k (drop_pending tech id)
unfolding drop_pending
drop_pending-AttributedAt k id tech h =
    rw (contains-without id k tech.pending_assessments, lookup-erase id k tech.assessment_focus)
      (ground arith)

pub contains-drop_pending :
    (id : Uuid) (tech : TechState) → contains id (drop_pending tech id).pending_assessments ≡ false
unfolding drop_pending
contains-drop_pending id tech =
    ground (arith, contains-without id id tech.pending_assessments, string_eq_iff id id)
