-- ===== src/Json.antt =====
-- The values of `dict[str, Any]`: plan payloads and move contexts.
use tech_screen_ai.Prelude.{
  ℕ, String, Bool, Option, none, some, ◌≡◌, refl, if◌then◌else◌, ◌==◌, string_eq, string_eq_iff,
  arith,
}
use tech_screen_ai.Prelude.Int.{ℤ}

-- A float is its IEEE bit pattern; nothing here computes with one.
mutual
  pub data Json : Type 0 where
    null : Json
    bool : Bool → Json
    int : ℤ → Json
    float : ℕ → Json
    str : String → Json
    arr : Items → Json
    obj : Fields → Json

  pub data Items : Type 0 where
    nil : Items
    cons : Json → Items → Items

  pub data Fields : Type 0 where
    end : Fields
    field : String → Json → Fields → Fields

-- d.get(key)
unfoldable pub get : String → Fields → Option Json
get key Fields.end = none
get key (Fields.field name value rest) = if name == key then some value else get key rest

-- {**d, key: value}
unfoldable pub set : String → Json → Fields → Fields
set key value Fields.end = Fields.field key value Fields.end
set key value (Fields.field name old rest) =
    if name == key then Fields.field name value rest else Fields.field name old (set key value rest)

pub get-set :
    (key other : String) (value : Json) (d : Fields)
    → get other (set key value d) ≡ (if key == other then some value else get other d)
unfolding get set
get-set key other value Fields.end = refl
get-set key other value (Fields.field name old rest) = ground (
  arith,
  string_eq_iff key other,
  string_eq_iff name key,
  string_eq_iff name other,
  get-set key other value rest,
)
