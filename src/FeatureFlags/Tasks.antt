-- ===== src/FeatureFlags/Tasks.antt =====
-- The queries of app/backend/services/feature_flags.py as tasks of one event loop: between two
-- `await`s of one, others run and notifications arrive.
use tech_screen_ai.Prelude.{
  ℕ, ◌+◌, String, Bool, Option, none, some, List, [], ◌∷◌, string_eq, nat_eq, nat_eq_iff, Key,
}
use tech_screen_ai.Prelude.Dict.{Dict, lookup, insert, erase}
use tech_screen_ai.FeatureFlags.Service.{
  FlagDecl, Cache, Begun, begin_query, read_from_db, store, on_notify,
}

instance abbrev pub task_eq : Key ℕ
task_eq = record { is_same = nat_eq; is_same_iff = nat_eq_iff }

-- A query that waits: when it began, and the value that it has read, if it has.
pub record Query : Type 0 where
  pub name : String
  pub asked : ℕ
  pub value : Option Bool

-- What a query that began at `asked` and ended at `answered` has returned.
pub record Answer : Type 0 where
  pub name : String
  pub asked : ℕ
  pub answered : ℕ
  pub value : Bool

-- `unknown` is the names of the queries that raised `UnknownFeatureFlag`.
pub record World : Type 0 where
  pub clock : ℕ
  pub cache : Cache
  pub queries : Dict ℕ Query
  pub answers : List Answer
  pub unknown : List String

pub data Action : Type 0 where
  passes : ℕ → Action
  notifies : String → Action
  asks : (task : ℕ) → String → Action
  reads_row : (task : ℕ) → Action
  fails : (task : ℕ) → Action
  stores : (task : ℕ) → Action

unfoldable pub give_answer : String → ℕ → Bool → World → World
give_answer name asked value w = record w {
  answers = record { name = name; asked = asked; answered = w.clock; value = value } ∷ w.answers;
}

unfoldable pub begun : ℕ → String → Begun → World → World
begun task name Begun.unknown_flag w = record w { unknown = name ∷ w.unknown }
begun task name (Begun.cached value) w = give_answer name w.clock value w
begun task name Begun.reads w = record w {
  queries = insert task (record { name = name; asked = w.clock; value = none }) w.queries;
}

-- A query that has read its value stores it and returns it; one that has not still waits.
unfoldable pub stored : ℕ → Query → Option Bool → World → World
stored task query none w = w
stored task query (some value) w = give_answer query.name query.asked value (record w {
  cache = store query.name value query.asked w.cache;
  queries = erase task w.queries;
})

-- `rows` is the table `feature_flag`, as it is at each time: others write it.
module _ (registry : Dict String FlagDecl) (rows : ℕ → Dict String Bool) where
  unfoldable pub read_at : ℕ → String → Bool
  read_at time name = read_from_db registry (rows time) name

  -- A query reads once.
  unfoldable pub read : ℕ → Query → Option Bool → World → World
  read task query (some value) w = w
  read task query none w = record w {
    queries = insert task (record query { value = some (read_at w.clock query.name) }) w.queries;
  }

  unfoldable pub step : Action → World → World
  step (Action.passes time) w = record w { clock = w.clock + time }
  step (Action.notifies payload) w = record w { cache = on_notify payload w.cache }
  step (Action.asks task name) w = begun task name (begin_query registry w.cache w.clock name) w
  step (Action.reads_row task) w = elim (lookup task w.queries) [
    | none ↦ w
    | some query ↦ read task query query.value w
  ]
  step (Action.fails task) w = record w { queries = erase task w.queries }
  step (Action.stores task) w = elim (lookup task w.queries) [
    | none ↦ w
    | some query ↦ stored task query query.value w
  ]

  unfoldable pub run : List Action → World → World
  run [] w = w
  run (action ∷ actions) w = run actions (step action w)

-- A new service at a time.
unfoldable pub new_service : ℕ → World
new_service time = record { clock = time; cache = []; queries = []; answers = []; unknown = [] }
