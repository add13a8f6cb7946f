-- ===== src/FeatureFlags/Fresh.antt =====
-- How old an answer of app/backend/services/feature_flags.py can be, whatever runs in between and
-- whichever notifications arrive.
use tech_screen_ai.Prelude.{
  ℕ, ◌+◌, ◌≤◌, ◌<◌, ◌≡◌, refl, String, Bool, true, false, Option, none, some, is_some, List, [],
  ◌∷◌, All, All-mono, arith, ltb, if◌then◌else◌, ◌==◌, string_eq,
}
use tech_screen_ai.Prelude.Dict.{Dict, lookup, erase, All-insert, All-erase, All-lookup}
use tech_screen_ai.FeatureFlags.Service.{
  FlagDecl, Begun, cache_ttl, from_cache, begin_query, store, on_notify,
}
use tech_screen_ai.FeatureFlags.Tasks.{
  task_eq, Query, Answer, World, Action, give_answer, begun, stored, read_at, read, step, run,
  new_service,
}

module _ (registry : Dict String FlagDecl) (rows : ℕ → Dict String Bool) where
  abbrev pub IsDeclared : String → Type 0
  IsDeclared name = is_some (lookup name registry) ≡ true

  -- A cached value was the flag's at a time up to `clock`, at most the TTL before its deadline.
  abbrev IsBacked : ℕ → String × (Bool × ℕ) → Type 0
  IsBacked clock (name, (value, deadline)) =
      (t : ℕ) × ((t ≤ clock)
        × ((deadline ≤ t + cache_ttl) × (value ≡ read_at registry rows t name)))

  abbrev HasRead : ℕ → Query → Option Bool → Type 0
  HasRead clock query none = Unit
  HasRead clock query (some value) =
      (t : ℕ) × ((query.asked ≤ t) × ((t ≤ clock) × (value ≡ read_at registry rows t query.name)))

  abbrev IsWaiting : ℕ → ℕ × Query → Type 0
  IsWaiting clock (task, query) =
      IsDeclared query.name × ((query.asked ≤ clock) × HasRead clock query query.value)

  -- The flag had the value that is answered, at a time before the answer that is less than the TTL
  -- before the question, or after it.
  abbrev pub IsFresh : Answer → Type 0
  IsFresh a =
      IsDeclared a.name
      × ((t : ℕ) × ((t ≤ a.answered)
            × ((a.asked < t + cache_ttl) × (a.value ≡ read_at registry rows t a.name))))

  abbrev IsSound : World → Type 0
  IsSound w =
      All (IsBacked w.clock) w.cache × (All (IsWaiting w.clock) w.queries × All IsFresh w.answers)

  HasRead-later :
      (clock later : ℕ)
      → clock ≤ later
      → (query : Query) (value : Option Bool) → HasRead clock query value
      → HasRead later query value
  HasRead-later clock later le query none h = tt
  HasRead-later clock later le query (some value) (t, (from, (until, same))) =
      (t, (from, (omega arith, same)))

  passes-IsSound :
      (time : ℕ) (w : World) → IsSound w → IsSound (step registry rows (Action.passes time) w)
  unfolding step
  passes-IsSound time w (backed, (waiting, fresh)) = (
    All-mono (IsBacked w.clock) (IsBacked (w.clock + time))
        (λ entry (t, (until, rest)). (t, (omega arith, rest))) w.cache backed,
    (
      All-mono (IsWaiting w.clock) (IsWaiting (w.clock + time))
          (λ entry (declared, (asked, has)). (
            declared,
            (
              omega arith,
              HasRead-later w.clock (w.clock + time) (omega arith) entry.1 entry.1.value has,
            ),
          ))
          w.queries waiting,
      fresh,
    ),
  )

  notifies-IsSound :
      (payload : String) (w : World)
      → IsSound w
      → IsSound (step registry rows (Action.notifies payload) w)
  unfolding step on_notify
  notifies-IsSound payload w (backed, rest) = (
    elim (payload == "")
        as (λ b. All (IsBacked w.clock) (if b then w.cache else erase payload w.cache)) [
          | true ↦ backed
          | false ↦ All-erase (IsBacked w.clock) payload w.cache backed
        ],
    rest,
  )

  -- The cached answer is given before its deadline.
  from_cache-IsFresh :
      (task : ℕ) (name : String) (w : World) (found : Option (Bool × ℕ))
      → lookup name w.cache ≡ found
      → IsDeclared name
      → IsSound w
      → IsSound (begun task name (from_cache w.clock found) w)
  unfolding begun give_answer
  from_cache-IsFresh task name w none e declared (backed, (waiting, fresh)) = (
    backed,
    (All-insert (IsWaiting w.clock) task _ w.queries (declared, (omega arith, tt)) waiting, fresh),
  )
  from_cache-IsFresh task name w (some (value, deadline)) e declared (backed, (waiting, fresh)) =
      (elim (ltb w.clock deadline)
          as (λ b.
            ltb w.clock deadline ≡ b
            → IsSound (begun task name (if b then Begun.cached value else Begun.reads) w)) [
              | true ↦ λ early.
                  let (t, (until, (by, same))) : IsBacked w.clock (name, (value, deadline)) =
                    All-lookup (IsBacked w.clock) name w.cache backed e in
                  (backed, (waiting, ((declared, (t, (until, (ground arith, same)))), fresh)))
              | false ↦ λ _. (
                backed,
                (
                  All-insert (IsWaiting w.clock) task _ w.queries (declared, (omega arith, tt))
                      waiting,
                  fresh,
                ),
              )
            ])
        refl

  asks-IsSound :
      (task : ℕ) (name : String) (w : World)
      → IsSound w
      → IsSound (step registry rows (Action.asks task name) w)
  unfolding step begin_query begun
  asks-IsSound task name w sound =
      (elim (lookup name registry)
          as (λ d.
            lookup name registry ≡ d
            → IsSound (
                begun task name
                  (elim d as (λ _. Begun) [
                    | none ↦ Begun.unknown_flag
                    | some decl ↦ from_cache w.clock (lookup name w.cache)
                  ])
                  w)) [
                    | none ↦ λ _. sound
                    | some decl ↦ λ e.
                        from_cache-IsFresh task name w (lookup name w.cache) refl
                          (ground (arith, e)) sound
                  ])
        refl

  read-IsSound :
      (task : ℕ) (query : Query) (value : Option Bool) (w : World)
      → IsWaiting w.clock (task, query)
      → IsSound w
      → IsSound (read registry rows task query value w)
  unfolding read
  read-IsSound task query (some value) w waits sound = sound
  read-IsSound task query none w (declared, (asked, has)) (backed, (waiting, fresh)) = (
    backed,
    (
      All-insert (IsWaiting w.clock) task _ w.queries
          (declared, (asked, (w.clock, (asked, (omega arith, refl))))) waiting,
      fresh,
    ),
  )

  stored-IsSound :
      (task : ℕ) (query : Query) (value : Option Bool) (w : World)
      → IsDeclared query.name
      → HasRead w.clock query value
      → IsSound w
      → IsSound (stored task query value w)
  unfolding stored give_answer store
  stored-IsSound task query none w declared has sound = sound
  stored-IsSound task query (some value) w declared (t, (from, (until, same)))
        (backed, (waiting, fresh)) =
      (
        All-insert (IsBacked w.clock) query.name (value, query.asked + cache_ttl) w.cache
            (t, (until, (omega arith, same))) backed,
        (
          All-erase (IsWaiting w.clock) task w.queries waiting,
          ((declared, (t, (until, (omega arith, same)))), fresh),
        ),
      )

  -- What a waiting query does next, if the task is one.
  next-IsSound :
      (task : ℕ) (w : World) (next : Query → World)
      → ((query : Query) → IsWaiting w.clock (task, query) → IsSound (next query))
      → IsSound w
      → IsSound
          (elim (lookup task w.queries) as (λ _. World) [ none ↦ w | some query ↦ next query ])
  next-IsSound task w next h sound =
      (elim (lookup task w.queries)
          as (λ q.
            lookup task w.queries ≡ q
            → IsSound (elim q as (λ _. World) [ none ↦ w | some query ↦ next query ])) [
              | none ↦ λ _. sound
              | some query ↦
                  λ e. h query (All-lookup (IsWaiting w.clock) task w.queries sound.1.0 e)
            ])
        refl

  step-IsSound : (action : Action) (w : World) → IsSound w → IsSound (step registry rows action w)
  unfolding step
  step-IsSound (Action.passes time) w sound = passes-IsSound time w sound
  step-IsSound (Action.notifies payload) w sound = notifies-IsSound payload w sound
  step-IsSound (Action.asks task name) w sound = asks-IsSound task name w sound
  step-IsSound (Action.reads_row task) w sound =
      next-IsSound task w (λ query. read registry rows task query query.value w)
        (λ query waits. read-IsSound task query query.value w waits sound) sound
  step-IsSound (Action.fails task) w (backed, (waiting, fresh)) =
      (backed, (All-erase (IsWaiting w.clock) task w.queries waiting, fresh))
  step-IsSound (Action.stores task) w sound =
      next-IsSound task w (λ query. stored task query query.value w)
        (λ query waits. stored-IsSound task query query.value w waits.0 waits.1.1 sound) sound

  run-IsSound :
      (actions : List Action) (w : World) → IsSound w → IsSound (run registry rows actions w)
  unfolding run
  run-IsSound [] w sound = sound
  run-IsSound (action ∷ actions) w sound =
      run-IsSound actions (step registry rows action w) (step-IsSound action w sound)

-- From a new service, over any interleaving of queries, their reads of the database, their stores,
-- failures, notifications and passing time, every answer is for a declared flag and is the value
-- that the flag had in the database at some time before the answer, a time that is less than the
-- 60 seconds of the TTL before the question or after it; and the table may change at will.
pub run-IsFresh :
    (registry : Dict String FlagDecl) (rows : ℕ → Dict String Bool) (time : ℕ)
    (actions : List Action)
    → All (IsFresh registry rows) (run registry rows actions (new_service time)).answers
unfolding new_service
run-IsFresh registry rows time actions =
    (run-IsSound registry rows actions (new_service time) (tt, (tt, tt))).1.1
