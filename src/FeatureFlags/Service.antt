-- ===== src/FeatureFlags/Service.antt =====
-- `FeatureFlagService` of app/backend/services/feature_flags.py: the registry, the cache, and
-- `is_enabled` in the two parts that its `await` of the database leaves.
use tech_screen_ai.Prelude.{
  ℕ, ◌+◌, String, Bool, false, Option, none, some, List, [], ◌∷◌, ltb, if◌then◌else◌, ◌==◌,
  string_eq,
}
use tech_screen_ai.Prelude.Dict.{Dict, lookup, insert, erase}

-- `_FlagDecl`
pub record FlagDecl : Type 0 where
  pub name : String
  pub owner : String
  pub default : Bool
  pub state : String

-- _CACHE_TTL_SECONDS, in milliseconds, as all times here.
abbrev pub cache_ttl : ℕ
cache_ttl = 60000

-- `_build_registry`, from the entries of the validated file.
unfoldable pub register : Dict String FlagDecl → List FlagDecl → Dict String FlagDecl
register found [] = found
register found (entry ∷ entries) = register (insert entry.name entry found) entries

unfoldable pub build_registry : List FlagDecl → Dict String FlagDecl
build_registry entries = register [] entries

abbrev pub Cache : Type 0
Cache = Dict String (Bool × ℕ)

-- Where the first part of `is_enabled` comes to: `UnknownFeatureFlag`, a cached answer, or the read of
-- the database.
pub data Begun : Type 0 where
  unknown_flag : Begun
  cached : Bool → Begun
  reads : Begun

abbrev pub from_cache : ℕ → Option (Bool × ℕ) → Begun
from_cache now none = Begun.reads
from_cache now (some (value, deadline)) =
    if ltb now deadline then Begun.cached value else Begun.reads

unfoldable pub begin_query : Dict String FlagDecl → Cache → ℕ → String → Begun
begin_query registry cache now name = elim (lookup name registry) [
  | none ↦ Begun.unknown_flag
  | some decl ↦ from_cache now (lookup name cache)
]

abbrev pub default_of : Option FlagDecl → Bool
default_of none = false
default_of (some decl) = decl.default

-- `_read_from_db` for a name of the registry: its row, or the declared default.
unfoldable pub read_from_db : Dict String FlagDecl → Dict String Bool → String → Bool
read_from_db registry rows name = elim (lookup name rows) [
  | none ↦ default_of (lookup name registry)
  | some enabled ↦ enabled
]

-- The second part of `is_enabled`: `now` is the time at its beginning.
unfoldable pub store : String → Bool → ℕ → Cache → Cache
store name value now cache = insert name (value, now + cache_ttl) cache

-- `_on_notify`, with `_invalidate`.
unfoldable pub on_notify : String → Cache → Cache
on_notify payload cache = if payload == "" then cache else erase payload cache
