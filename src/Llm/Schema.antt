-- ===== src/Llm/Schema.antt =====
-- The second-stage check of a payload in app/backend/llm/vertex.py: `_validate_against_schema` and
-- `_parse_and_validate`, over a schema that is any `dict`.
pub mod Contract
use tech_screen_ai.Prelude.{
  ℕ, String, Bool, true, false, not, ◌&&◌, ◌||◌, Option, none, some, is_some, nat_eq, if◌then◌else◌,
  ◌==◌, string_eq,
}
use tech_screen_ai.Prelude.Int.{ℤ, pos}
use tech_screen_ai.Json.{Json, Items, Fields, get}
use tech_screen_ai.Llm.Keys.{
  and_then, passed_if, is_string, is_boolean, is_integer, is_number, is_truthy, has_key, requires,
  requires_items, requires_keys, requires_characters, required_of, check_required, no_extras,
  is_false, check_extras, as_dict, properties_of, all_items, if_present, KeyVerdict,
}

pub data SchemaType : Type 0 where
  object_type array_type string_type boolean_type integer_type number_type other_type : SchemaType

unfoldable pub schema_type : Option Json → SchemaType
schema_type (some (Json.str name)) =
    if name == "object"
    then SchemaType.object_type
    else if name == "array"
    then SchemaType.array_type
    else if name == "string"
    then SchemaType.string_type
    else if name == "boolean"
    then SchemaType.boolean_type
    else if name == "integer"
    then SchemaType.integer_type
    else if name == "number"
    then SchemaType.number_type
    else SchemaType.other_type
schema_type _ = SchemaType.other_type

-- The three steps of an object; `nested` checks the properties that the payload has.
unfoldable pub check_dict : Fields → Option Fields → (Fields → KeyVerdict) → Fields → KeyVerdict
unfolding check_required check_extras and_then
check_dict schema none nested payload = and_then (check_required schema payload) KeyVerdict.crashed
check_dict schema (some properties) nested payload =
    and_then (check_required schema payload)
      (and_then (check_extras schema properties payload) (nested payload))

unfoldable pub check_object : Fields → (Fields → KeyVerdict) → Json → KeyVerdict
unfolding properties_of check_dict
check_object schema nested (Json.obj payload) =
    check_dict schema (properties_of schema) nested payload
check_object schema nested _ = KeyVerdict.missed

abbrev pub check_array : (Items → KeyVerdict) → Json → KeyVerdict
check_array each (Json.arr items) = each items
check_array each _ = KeyVerdict.missed

-- The branch that the type selects; an unknown type is skipped.
abbrev pub check_type :
    SchemaType → Fields → (Fields → KeyVerdict) → (Items → KeyVerdict) → Json → KeyVerdict
check_type SchemaType.object_type schema nested each payload = check_object schema nested payload
check_type SchemaType.array_type schema nested each payload = check_array each payload
check_type SchemaType.string_type schema nested each payload = passed_if (is_string payload)
check_type SchemaType.boolean_type schema nested each payload = passed_if (is_boolean payload)
check_type SchemaType.integer_type schema nested each payload = passed_if (is_integer payload)
check_type SchemaType.number_type schema nested each payload = passed_if (is_number payload)
check_type SchemaType.other_type schema nested each payload = KeyVerdict.passed

-- The recursion of `_validate_against_schema`, on the schema; a sub-schema that is no `dict` is
-- skipped. `each_item` and `properties_in` look for the two keys that hold sub-schemas.
unfoldable mutual
  unfolding get schema_type all_items and_then check_object

  pub validate_value : Json → Json → KeyVerdict
  validate_value (Json.obj schema) payload =
      check_type (schema_type (get "type" schema)) schema (properties_in schema) (each_item schema)
        payload
  validate_value _ payload = KeyVerdict.passed

  pub each_item : Fields → Items → KeyVerdict
  each_item Fields.end items = KeyVerdict.passed
  each_item (Fields.field name value rest) items =
      if name == "items" then all_items (validate_value value) items else each_item rest items

  pub properties_in : Fields → Fields → KeyVerdict
  properties_in Fields.end payload = KeyVerdict.passed
  properties_in (Fields.field name value rest) payload =
      if name == "properties" then sub_schemas value payload else properties_in rest payload

  pub sub_schemas : Json → Fields → KeyVerdict
  sub_schemas (Json.obj properties) payload = validate_properties properties payload
  sub_schemas _ payload = KeyVerdict.passed

  pub validate_properties : Fields → Fields → KeyVerdict
  validate_properties Fields.end payload = KeyVerdict.passed
  validate_properties (Fields.field key schema rest) payload =
      and_then (if_present (validate_value schema) (get key payload))
        (validate_properties rest payload)

-- `_validate_against_schema`
unfoldable pub validate_against_schema : Json → Fields → KeyVerdict
unfolding validate_value
validate_against_schema payload schema = validate_value (Json.obj schema) payload

-- The payload of a text: an object that fits, a `VertexSchemaError`, or an exception.
pub data Parsed : Type 0 where
  fits : Fields → Parsed
  misfits broken : Parsed

abbrev pub judged : Fields → KeyVerdict → Parsed
judged payload KeyVerdict.passed = Parsed.fits payload
judged payload KeyVerdict.missed = Parsed.misfits
judged payload KeyVerdict.crashed = Parsed.broken

-- How `json.loads` ends: a value, a `JSONDecodeError`, or an exception that is not caught: the
-- `ValueError` of an integer with too many digits, a `RecursionError`.
pub data Read : Type 0 where
  value : Json → Read
  not_json unreadable : Read

unfoldable pub validated : Read → Fields → Parsed
unfolding validate_against_schema
validated (Read.value (Json.obj payload)) schema =
    judged payload (validate_against_schema (Json.obj payload) schema)
validated (Read.value _) schema = Parsed.misfits
validated Read.not_json schema = Parsed.misfits
validated Read.unreadable schema = Parsed.broken

-- `loads` is `json.loads`.
unfoldable pub parse_and_validate : (String → Read) → String → Fields → Parsed
unfolding validated
parse_and_validate loads text schema = validated (loads text) schema
