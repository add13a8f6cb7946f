-- ===== src/FeatureFlags/Examples.antt =====
-- A run of the theorem on one flag, and the tests of what a notification does.
use tech_screen_ai.Prelude.{
  ℕ, ◌≡◌, refl, String, Bool, true, false, List, [], ◌∷◌, ◌++◌, map, All, leb, if◌then◌else◌,
  string_eq,
}
use tech_screen_ai.Prelude.Dict.{Dict, lookup, insert, erase}
use tech_screen_ai.FeatureFlags.Fresh.{IsFresh, run-IsFresh}
use tech_screen_ai.FeatureFlags.Service.{
  FlagDecl, register, build_registry, begin_query, read_from_db, store, on_notify,
}
use tech_screen_ai.FeatureFlags.Tasks.{
  Answer, Action, give_answer, begun, stored, read_at, read, step, run, new_service,
}

abbrev decl : FlagDecl
decl = record { name = "live_mode"; owner = "core"; default = false; state = "active" }

abbrev registry : Dict String FlagDecl
registry = build_registry (decl ∷ [])

-- The flag is turned on at 1000.
abbrev rows : ℕ → Dict String Bool
rows time = if leb 1000 time then ("live_mode", true) ∷ [] else []

abbrev query : ℕ → List Action
query task = Action.asks task "live_mode" ∷ Action.reads_row task ∷ Action.stores task ∷ []

abbrev values : List Action → List Bool
values actions = map (λ (a : Answer). a.value) (run registry rows actions (new_service 500)).answers

-- The cached value is answered after the change until the notification comes, or the TTL is over.
cached_lem :
    values (query 1 ++ Action.passes 1000 ∷ query 2 ++ Action.notifies "live_mode" ∷ query 3)
    ≡ true ∷ false ∷ false ∷ []
unfolding build_registry register begin_query read_from_db store on_notify give_answer begun stored
    read_at read step run new_service lookup insert erase
cached_lem = refl

ttl_lem : values (query 1 ++ Action.passes 60000 ∷ query 2) ≡ true ∷ false ∷ []
unfolding build_registry register begin_query read_from_db store on_notify give_answer begun stored
    read_at read step run new_service lookup insert erase
ttl_lem = refl

-- A notification between the read and the store is lost: the old value is stored after it.
race_lem :
    values (
      Action.asks 1 "live_mode"
      ∷ Action.reads_row 1
      ∷ Action.passes 1000
      ∷ Action.notifies "live_mode"
      ∷ Action.stores 1
      ∷ query 2)
    ≡ false ∷ false ∷ []
unfolding build_registry register begin_query read_from_db store on_notify give_answer begun stored
    read_at read step run new_service lookup insert erase
race_lem = refl

unknown_lem :
    (run registry rows (query 1 ++ Action.asks 2 "liv_mode" ∷ []) (new_service 0)).unknown
    ≡ "liv_mode" ∷ []
unfolding build_registry register begin_query read_from_db store on_notify give_answer begun stored
    read_at read step run new_service lookup insert erase
unknown_lem = refl

run-IsFresh_example :
    All
      (IsFresh registry rows)
      (run registry rows (query 1 ++ Action.passes 1000 ∷ query 2) (new_service 500)).answers
run-IsFresh_example = run-IsFresh registry rows 500 (query 1 ++ Action.passes 1000 ∷ query 2)
