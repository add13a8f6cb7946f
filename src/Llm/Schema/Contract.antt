-- ===== src/Llm/Schema/Contract.antt =====
-- The check of a payload decides what a contract means, on the schemas that the agents' contracts
-- are written in: objects with required keys and closed or open properties, arrays and scalars.
use tech_screen_ai.Prelude.{
  String, Bool, true, false, not, ◌&&◌, ◌||◌, ◌≡◌, refl, ap, Option, none, some, List, [], ◌∷◌,
  if◌then◌else◌, ◌==◌, string_eq, arith,
}
use tech_screen_ai.Json.{Json, Items, Fields, get}
use tech_screen_ai.Llm.Schema.{
  check_object, schema_type, check_dict, validate_value, validate_properties,
  validate_against_schema,
}
use tech_screen_ai.Llm.Keys.{
  KeyVerdict, and_then, passed_if, is_string, is_boolean, is_integer, is_number, is_truthy, has_key,
  requires, requires_items, required_of, check_required, no_extras, check_extras, properties_of,
  all_items, if_present,
}

-- Which type a payload must have.
mutual
  pub data Contract : Type 0 where
    text boolean integer number : Contract
    array : Contract → Contract
    object : (required : List String) (closed : Bool) (properties : Properties) → Contract

  pub data Properties : Type 0 where
    done : Properties
    property : String → Contract → Properties → Properties

abbrev pub texts : List String → Items
texts [] = Items.nil
texts (key ∷ keys) = Items.cons (Json.str key) (texts keys)

abbrev of_type : String → Fields → Fields
of_type name rest = Fields.field "type" (Json.str name) rest

-- The schema that says so.
unfoldable mutual
  pub schema_of : Contract → Fields
  schema_of Contract.text = of_type "string" Fields.end
  schema_of Contract.boolean = of_type "boolean" Fields.end
  schema_of Contract.integer = of_type "integer" Fields.end
  schema_of Contract.number = of_type "number" Fields.end
  schema_of (Contract.array item) =
      of_type "array" (Fields.field "items" (Json.obj (schema_of item)) Fields.end)
  schema_of (Contract.object required closed properties) = of_type "object" (
      Fields.field "properties" (Json.obj (schemas_of properties)) (
        Fields.field "required" (Json.arr (texts required))
          (Fields.field "additionalProperties" (Json.bool (not closed)) Fields.end)))

  pub schemas_of : Properties → Fields
  schemas_of Properties.done = Fields.end
  schemas_of (Properties.property key contract rest) =
      Fields.field key (Json.obj (schema_of contract)) (schemas_of rest)

unfoldable pub all_present : List String → Fields → Bool
unfolding has_key
all_present [] payload = true
all_present (key ∷ keys) payload = has_key key payload && all_present keys payload

abbrev is_declared : String → Properties → Bool
is_declared key Properties.done = false
is_declared key (Properties.property name contract rest) =
    if name == key then true else is_declared key rest

abbrev all_declared : Properties → Fields → Bool
all_declared properties Fields.end = true
all_declared properties (Fields.field key value rest) =
    is_declared key properties && all_declared properties rest

abbrev all_true : (Json → Bool) → Items → Bool
all_true test Items.nil = true
all_true test (Items.cons item items) = test item && all_true test items

abbrev true_if_present : (Json → Bool) → Option Json → Bool
true_if_present test none = true
true_if_present test (some value) = test value

-- What it means for a payload to keep the contract.
unfoldable mutual
  unfolding get has_key all_present

  pub conforms : Contract → Json → Bool
  conforms Contract.text payload = is_string payload
  conforms Contract.boolean payload = is_boolean payload
  conforms Contract.integer payload = is_integer payload
  conforms Contract.number payload = is_number payload
  conforms (Contract.array item) (Json.arr items) = all_true (conforms item) items
  conforms (Contract.object required closed properties) (Json.obj payload) =
      all_present required payload
      && ((not closed || all_declared properties payload) && conforms_in properties payload)
  conforms _ _ = false

  pub conforms_in : Properties → Fields → Bool
  conforms_in Properties.done payload = true
  conforms_in (Properties.property key contract rest) payload =
      true_if_present (conforms contract) (get key payload) && conforms_in rest payload

and_then-passed_if : (a b : Bool) → and_then (passed_if a) (passed_if b) ≡ passed_if (a && b)
unfolding and_then
and_then-passed_if true b = refl
and_then-passed_if false b = refl

all_items-lem :
    (check : Json → KeyVerdict) (test : Json → Bool) (items : Items)
    → ((x : Json) → check x ≡ passed_if (test x))
    → all_items check items ≡ passed_if (all_true test items)
unfolding all_items
all_items-lem check test Items.nil h = refl
all_items-lem check test (Items.cons x items) h =
    rw (h x, all_items-lem check test items h) (and_then-passed_if (test x) (all_true test items))

if_present-lem :
    (check : Json → KeyVerdict) (test : Json → Bool) (found : Option Json)
    → ((x : Json) → check x ≡ passed_if (test x))
    → if_present check found ≡ passed_if (true_if_present test found)
if_present-lem check test none h = refl
if_present-lem check test (some x) h = h x

requires_items-lem :
    (required : List String) (payload : Fields)
    → requires_items payload (texts required) ≡ passed_if (all_present required payload)
unfolding requires_items requires has_key all_present
requires_items-lem [] payload = refl
requires_items-lem (key ∷ keys) payload =
    rw (requires_items-lem keys payload)
      (and_then-passed_if (has_key key payload) (all_present keys payload))

has_key-schemas_of :
    (key : String) (properties : Properties)
    → has_key key (schemas_of properties) ≡ is_declared key properties
unfolding has_key schemas_of get
has_key-schemas_of key Properties.done = refl
has_key-schemas_of key (Properties.property name contract rest) =
    ground (arith, has_key-schemas_of key rest)

no_extras-lem :
    (properties : Properties) (payload : Fields)
    → no_extras (schemas_of properties) payload ≡ all_declared properties payload
unfolding no_extras
no_extras-lem properties Fields.end = refl
no_extras-lem properties (Fields.field key value rest) =
    rw (has_key-schemas_of key properties, no_extras-lem properties rest) refl

-- The three parts of the schema of an object.
abbrev object_schema : List String → Bool → Properties → Fields
unfolding schema_of
object_schema required closed properties = schema_of (Contract.object required closed properties)

check_required-lem :
    (required : List String) (closed : Bool) (properties : Properties) (payload : Fields)
    → check_required (object_schema required closed properties) payload
      ≡ passed_if (all_present required payload)
unfolding check_required schema_of get is_truthy all_present required_of requires_items
check_required-lem [] closed properties payload = refl
check_required-lem (key ∷ keys) closed properties payload = requires_items-lem (key ∷ keys) payload

check_extras-lem :
    (required : List String) (closed : Bool) (properties : Properties) (payload : Fields)
    → check_extras (object_schema required closed properties) (schemas_of properties) payload
      ≡ passed_if (not closed || all_declared properties payload)
unfolding check_extras schema_of get
check_extras-lem required true properties payload = ap passed_if (no_extras-lem properties payload)
check_extras-lem required false properties payload = refl

properties_of-lem :
    (required : List String) (closed : Bool) (properties : Properties)
    → properties_of (object_schema required closed properties) ≡ some (schemas_of properties)
unfolding properties_of schema_of get is_truthy
properties_of-lem required closed Properties.done = refl
properties_of-lem required closed (Properties.property key contract rest) = refl

mutual
  unfolding validate_value schema_of conforms schema_type get check_object check_dict

  validate_value-conforms :
      (contract : Contract) (payload : Json)
      → validate_value (Json.obj (schema_of contract)) payload
        ≡ passed_if (conforms contract payload)
  validate_value-conforms Contract.text payload = refl
  validate_value-conforms Contract.boolean payload = refl
  validate_value-conforms Contract.integer payload = refl
  validate_value-conforms Contract.number payload = refl
  validate_value-conforms (Contract.array item) (Json.arr items) =
      all_items-lem (validate_value (Json.obj (schema_of item))) (conforms item) items
        (λ x. validate_value-conforms item x)
  validate_value-conforms (Contract.array item) Json.null = refl
  validate_value-conforms (Contract.array item) (Json.bool b) = refl
  validate_value-conforms (Contract.array item) (Json.int n) = refl
  validate_value-conforms (Contract.array item) (Json.float x) = refl
  validate_value-conforms (Contract.array item) (Json.str s) = refl
  validate_value-conforms (Contract.array item) (Json.obj d) = refl
  validate_value-conforms (Contract.object required closed properties) (Json.obj d) =
      rw
        (
          properties_of-lem required closed properties,
          check_required-lem required closed properties d,
          check_extras-lem required closed properties d,
          validate_properties-conforms properties d,
          and_then-passed_if (not closed || all_declared properties d) (conforms_in properties d),
        )
        (and_then-passed_if (all_present required d)
          ((not closed || all_declared properties d) && conforms_in properties d))
  validate_value-conforms (Contract.object required closed properties) Json.null = refl
  validate_value-conforms (Contract.object required closed properties) (Json.bool b) = refl
  validate_value-conforms (Contract.object required closed properties) (Json.int n) = refl
  validate_value-conforms (Contract.object required closed properties) (Json.float x) = refl
  validate_value-conforms (Contract.object required closed properties) (Json.str s) = refl
  validate_value-conforms (Contract.object required closed properties) (Json.arr xs) = refl

  validate_properties-conforms :
      (properties : Properties) (payload : Fields)
      → validate_properties (schemas_of properties) payload
        ≡ passed_if (conforms_in properties payload)
  validate_properties-conforms Properties.done payload = refl
  validate_properties-conforms (Properties.property key contract rest) payload =
      rw
        (
          if_present-lem (validate_value (Json.obj (schema_of contract))) (conforms contract)
              (get key payload) (λ x. validate_value-conforms contract x),
          validate_properties-conforms rest payload,
        )
        (and_then-passed_if (true_if_present (conforms contract) (get key payload))
          (conforms_in rest payload))

-- On the schema that a contract is written as (objects with required keys, closed or open
-- properties, arrays and the four scalar types, nested at will), the check passes every payload
-- that conforms to the contract, raises VertexSchemaError for every other, and never fails
-- otherwise.
pub validate-Decides :
    (contract : Contract) (payload : Json)
    → validate_against_schema payload (schema_of contract) ≡ passed_if (conforms contract payload)
unfolding validate_against_schema
validate-Decides contract payload = validate_value-conforms contract payload
