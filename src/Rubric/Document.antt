-- ===== src/Rubric/Document.antt =====
-- A file of configs/rubric, as docs/contracts/rubric.schema.json has it: what `yaml.safe_load` and
-- the validation by that schema leave of a file, in app/backend/services/rubric_importer.py and
-- scripts/sync_rubric_to_db.py.
use tech_screen_ai.Prelude.{ℕ, String, Bool, Option, List, [], ◌∷◌, string_eq}
use tech_screen_ai.Prelude.Dict.{Dict, insert}

pub record LevelEntry : Type 0 where
  pub level : ℕ
  pub descriptor_en : String

-- `parent` is `none` for null and for a missing key; `retired` and `levels` are false and [] for a
-- missing key.
pub record Node : Type 0 where
  pub id : String
  pub parent : Option String
  pub retired : Bool
  pub levels : List LevelEntry

pub record Document : Type 0 where
  pub retired : Bool
  pub nodes : List Node

-- The files of a directory, sorted by name: the stem of the name, and the document.
abbrev pub Documents : Type 0
Documents = List (String × Document)

-- {n["id"]: n for n in nodes}, from a dictionary that has the earlier ones.
unfoldable pub add_nodes : Dict String Node → List Node → Dict String Node
add_nodes found [] = found
add_nodes found (node ∷ nodes) = add_nodes (insert node.id node found) nodes

unfoldable pub nodes_by_id : Document → Dict String Node
unfolding add_nodes
nodes_by_id doc = add_nodes [] doc.nodes

-- The values of a dictionary, in its order.
unfoldable pub values : Dict String Node → List Node
values [] = []
values ((key, node) ∷ rest) = node ∷ values rest
