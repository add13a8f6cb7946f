-- ===== src/Llm/Keys.antt =====
-- The pieces of the check of a payload in app/backend/llm/vertex.py: Python's tests, and the three
-- checks of an object.
use tech_screen_ai.Prelude.{
  String, Bool, true, false, not, ◌&&◌, ◌||◌, Option, none, some, is_some, nat_eq, if◌then◌else◌,
  ◌==◌, string_eq,
}
use tech_screen_ai.Prelude.Int.{pos}
use tech_screen_ai.Json.{Json, Items, Fields, get}

-- `missed` is `VertexSchemaError`, `crashed` an exception that a malformed schema causes.
pub data KeyVerdict : Type 0 where
  passed missed crashed : KeyVerdict

-- The second check, after the first has passed.
unfoldable pub and_then : KeyVerdict → KeyVerdict → KeyVerdict
and_then KeyVerdict.passed later = later
and_then verdict later = verdict

abbrev pub passed_if : Bool → KeyVerdict
passed_if true = KeyVerdict.passed
passed_if false = KeyVerdict.missed

-- `isinstance`; a `bool` is an `int` in Python, which the code excludes.
abbrev pub is_string : Json → Bool
is_string (Json.str s) = true
is_string _ = false

abbrev pub is_boolean : Json → Bool
is_boolean (Json.bool b) = true
is_boolean _ = false

abbrev pub is_integer : Json → Bool
is_integer (Json.int n) = true
is_integer _ = false

abbrev pub is_number : Json → Bool
is_number (Json.int n) = true
is_number (Json.float x) = true
is_number _ = false

-- Python's truth, and that of a missing key. The floats that are zero are 0.0 and -0.0.
unfoldable pub is_truthy : Option Json → Bool
is_truthy none = false
is_truthy (some Json.null) = false
is_truthy (some (Json.bool b)) = b
is_truthy (some (Json.int (pos n))) = not (nat_eq n 0)
is_truthy (some (Json.int n)) = true
is_truthy (some (Json.float x)) = not (nat_eq x 0 || nat_eq x 0x8000000000000000)
is_truthy (some (Json.str s)) = not (s == "")
is_truthy (some (Json.arr Items.nil)) = false
is_truthy (some (Json.arr items)) = true
is_truthy (some (Json.obj Fields.end)) = false
is_truthy (some (Json.obj fields)) = true

unfoldable pub has_key : String → Fields → Bool
unfolding get
has_key key d = is_some (get key d)

-- `for key in required: if key not in payload`. A key that is no text is in no payload, and one that
-- is unhashable cannot be looked up.
unfoldable pub requires : Fields → Json → KeyVerdict
unfolding has_key
requires payload (Json.str key) = passed_if (has_key key payload)
requires payload (Json.arr items) = KeyVerdict.crashed
requires payload (Json.obj fields) = KeyVerdict.crashed
requires payload _ = KeyVerdict.missed

unfoldable pub requires_items : Fields → Items → KeyVerdict
unfolding and_then requires
requires_items payload Items.nil = KeyVerdict.passed
requires_items payload (Items.cons key keys) =
    and_then (requires payload key) (requires_items payload keys)

unfoldable pub requires_keys : Fields → Fields → KeyVerdict
unfolding and_then has_key
requires_keys payload Fields.end = KeyVerdict.passed
requires_keys payload (Fields.field key value rest) =
    and_then (passed_if (has_key key payload)) (requires_keys payload rest)

unfoldable pub requires_characters : Fields → String → KeyVerdict
unfolding and_then has_key
requires_characters payload String.[] = KeyVerdict.passed
requires_characters payload (String.◌∷◌ c s) =
    and_then (passed_if (has_key (String.◌∷◌ c "") payload)) (requires_characters payload s)

-- What a `required` that is true iterates over.
unfoldable pub required_of : Fields → Option Json → KeyVerdict
unfolding requires_items requires_keys requires_characters
required_of payload (some (Json.arr items)) = requires_items payload items
required_of payload (some (Json.obj keys)) = requires_keys payload keys
required_of payload (some (Json.str s)) = requires_characters payload s
required_of payload _ = KeyVerdict.crashed

unfoldable pub check_required : Fields → Fields → KeyVerdict
unfolding is_truthy get required_of
check_required schema payload =
    if is_truthy (get "required" schema)
    then required_of payload (get "required" schema)
    else KeyVerdict.passed

-- No key of the payload is missing from the properties.
unfoldable pub no_extras : Fields → Fields → Bool
unfolding has_key
no_extras properties Fields.end = true
no_extras properties (Fields.field key value rest) =
    has_key key properties && no_extras properties rest

-- `schema.get("additionalProperties") is False`
abbrev pub is_false : Option Json → Bool
is_false (some (Json.bool false)) = true
is_false _ = false

unfoldable pub check_extras : Fields → Fields → Fields → KeyVerdict
unfolding get no_extras
check_extras schema properties payload =
    if is_false (get "additionalProperties" schema)
    then passed_if (no_extras properties payload)
    else KeyVerdict.passed

-- `schema.get("properties") or {}`, which must then be a `dict`.
abbrev pub as_dict : Option Json → Option Fields
as_dict (some (Json.obj fields)) = some fields
as_dict _ = none

unfoldable pub properties_of : Fields → Option Fields
unfolding is_truthy get
properties_of schema =
    if is_truthy (get "properties" schema)
    then as_dict (get "properties" schema)
    else some Fields.end

unfoldable pub all_items : (Json → KeyVerdict) → Items → KeyVerdict
unfolding and_then
all_items check Items.nil = KeyVerdict.passed
all_items check (Items.cons item items) = and_then (check item) (all_items check items)

-- The check of a value that may be missing.
abbrev pub if_present : (Json → KeyVerdict) → Option Json → KeyVerdict
if_present check none = KeyVerdict.passed
if_present check (some value) = check value
