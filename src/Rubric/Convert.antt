-- ===== src/Rubric/Convert.antt =====
-- From a workbook to the files of the rubric: `_competencies_to_yaml_doc`, `_emit_canonical_yaml` and
-- `convert` of app/backend/services/rubric_importer.py.
use Prim.Native.String.{◌++◌ as append, compare}
use tech_screen_ai.Prelude.{
  ℕ, String, Bool, false, not, Option, none, some, is_some, List, [], ◌∷◌, map, leb, if◌then◌else◌,
  string_eq,
}
use tech_screen_ai.Prelude.Dict.{Dict, lookup, insert}
use tech_screen_ai.Prelude.Sort.{order_by}
use text.Mathlib.Text.{starts_with, is_le}
use tech_screen_ai.Rubric.Sheet.{ParsedLevel, ParsedCompetency, Competencies, read_sheet}
use tech_screen_ai.Rubric.Workbook.{
  Sheet, CellLibrary, ConvertError, Converted, and_then, is_stable_id,
}

-- A node of the document, with a level as it was parsed: `evidence_examples_en` is left out of the
-- file where it is empty, and `levels` where there is none.
pub record YamlNode : Type 0 where
  pub id : String
  pub label_en : String
  pub label_uk : String
  pub parent : Option String
  pub retired : Bool
  pub levels : List ParsedLevel

abbrev pub block_id : String → String
block_id slug = append "block." slug

abbrev pub block_node : ParsedCompetency → YamlNode
block_node comp = record {
  id = block_id comp.block_slug;
  label_en = comp.block_label;
  label_uk = comp.block_label;
  parent = none;
  retired = false;
  levels = [];
}

abbrev pub second : ℕ × ParsedLevel → ParsedLevel
second (rank, level) = level

abbrev pub competency_node : ParsedCompetency → YamlNode
competency_node comp = record {
  id = comp.id;
  label_en = comp.label_en;
  label_uk = comp.label_uk;
  parent = some (block_id comp.block_slug);
  retired = comp.retired;
  levels = map second comp.levels;
}

-- The node of the competency's block, unless one is there; `blocks` is from the slug to the label.
abbrev pub new_block : Dict String String → ParsedCompetency → List YamlNode → List YamlNode
new_block blocks comp nodes =
    if is_some (lookup comp.block_slug blocks) then nodes else block_node comp ∷ nodes

-- blocks[comp.block_slug] = comp.block_label, unless it is there.
abbrev pub see_block : Dict String String → ParsedCompetency → Dict String String
see_block blocks comp =
    if is_some (lookup comp.block_slug blocks)
    then blocks
    else insert comp.block_slug comp.block_label blocks

unfoldable pub yaml_nodes : Dict String String → List ParsedCompetency → List YamlNode
yaml_nodes blocks [] = []
yaml_nodes blocks (comp ∷ comps) =
    new_block blocks comp (competency_node comp ∷ yaml_nodes (see_block blocks comp) comps)

-- The `nodes` of the document; its version is 1, and it is not retired.
unfoldable pub competencies_to_yaml_doc : List ParsedCompetency → List YamlNode
competencies_to_yaml_doc comps = yaml_nodes [] comps

abbrev node_before : YamlNode → YamlNode → Bool
node_before a b = is_le (compare a.id b.id)

abbrev level_before : ParsedLevel → ParsedLevel → Bool
level_before a b = leb a.level b.level

abbrev with_levels_sorted : YamlNode → YamlNode
with_levels_sorted node = record node { levels = order_by level_before node.levels }

-- The order that `_emit_canonical_yaml` gives the nodes before `safe_dump`.
unfoldable pub canonical : List YamlNode → List YamlNode
canonical nodes = map with_levels_sorted (order_by node_before nodes)

abbrev pub parsed_values : Competencies → List ParsedCompetency
parsed_values [] = []
parsed_values ((id, comp) ∷ parsed) = comp ∷ parsed_values parsed

-- `is_valid` is the check by the schema, and `safe_dump` writes the document.
pub record EmitLibrary : Type 0 where
  pub cells : CellLibrary
  pub is_valid : List YamlNode → Bool
  pub safe_dump : List YamlNode → String

module _ (lib : EmitLibrary) where
  -- A sheet's file: its stem and its text.
  unfoldable pub convert_sheet : String → Sheet → Converted (String × String)
  convert_sheet name sheet =
      let stack_id = lib.cells.norm name in
      if not (is_stable_id stack_id)
      then Converted.failed (ConvertError.empty_required_cell name)
      else and_then (read_sheet lib.cells sheet) (λ parsed.
        let doc : List YamlNode = competencies_to_yaml_doc (parsed_values parsed) in
        if lib.is_valid doc
        then Converted.done (stack_id, lib.safe_dump (canonical doc))
        else Converted.failed (ConvertError.schema_violated name))

  -- The files that are written, in order, and the exception that ends it, if one does: what was written
  -- before it stays.
  unfoldable pub convert :
      List (String × Sheet) → Dict String String → Option ConvertError × Dict String String
  convert [] written = (none, written)
  convert ((name, sheet) ∷ sheets) written =
      if starts_with name "_" then convert sheets written else elim (convert_sheet name sheet) [
        | Converted.failed raised ↦ (some raised, written)
        | Converted.done file ↦ convert sheets (insert file.0 file.1 written)
      ]
