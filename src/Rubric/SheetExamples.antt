-- ===== src/Rubric/SheetExamples.antt =====
-- A sheet of two rows, and what becomes of it.
use tech_screen_ai.Prelude.{
  ◌≡◌, refl, String, true, false, Option, none, some, List, [], ◌∷◌, map, All, if◌then◌else◌,
  string_eq, ◌==◌,
}
use tech_screen_ai.Prelude.Dict.{lookup, insert}
use tech_screen_ai.Prelude.Int.{ℤ, pos}
use tech_screen_ai.Prelude.Sort.{order_by, place}
use tech_screen_ai.Rubric.Convert.{
  YamlNode, competency_node, block_node, yaml_nodes, competencies_to_yaml_doc, EmitLibrary,
  canonical, convert_sheet, convert,
}
use tech_screen_ai.Rubric.Linked.{IsNode, read_sheet-IsNode}
use tech_screen_ai.Rubric.Sheet.{
  ParsedCompetency, Competencies, require, add_rank, of_block, add_leveled, read_filled,
  read_sheet_row, read_rows, read_sheet,
}
use tech_screen_ai.Rubric.Workbook.{
  Cell, Sheet, CellLibrary, ConvertError, Converted, matches_id, read_headers, cell_at,
  check_headers, is_merged, check_merged, check_sheet,
}

abbrev digit_of : String → Option ℤ
digit_of text = if text == "1" then some (pos 1) else if text == "6" then some (pos 6) else none

abbrev cells : CellLibrary
cells = record {
  norm = λ text. text;
  lower = λ text. text;
  slugify = λ text. "core";
  parse_int = digit_of;
  evidence = λ text. text ∷ [];
}

abbrev header : List Cell
header =
    map (λ name. some name)
      ("block" ∷ "competency_id" ∷ "competency_label_uk" ∷ "competency_label_en" ∷ "level"
        ∷ "descriptor_en" ∷ "level_label_uk" ∷ [])

abbrev row : String → String → List Cell
row id level =
    some "Core"
    ∷ some id
    ∷ some "Пайтон"
    ∷ some "Python"
    ∷ some level
    ∷ some "Reads code."
    ∷ some "Базовий"
    ∷ []

-- An empty row between two that are filled.
abbrev sheet : String → String → Sheet
sheet id level = record {
  rows = header ∷ row "core.python" "1" ∷ [] ∷ row id level ∷ [];
  merged = [];
}

abbrev sample : String → ParsedCompetency
sample id = record {
  id = id;
  block_slug = "core";
  block_label = "Core";
  label_uk = "Пайтон";
  label_en = "Python";
  topic = "";
  retired = false;
  levels =
      (
        1,
        record {
          level = 1;
          label_uk = "Базовий";
          descriptor_en = "Reads code.";
          evidence_examples_en = [];
        },
      )
      ∷ [];
}

abbrev parsed : Competencies
parsed = ("core.python", sample "core.python") ∷ ("core.sql", sample "core.sql") ∷ []

sheet_lem : read_sheet cells (sheet "core.sql" "1") ≡ Converted.done parsed
unfolding read_sheet read_rows read_sheet_row read_filled require add_leveled of_block add_rank
    matches_id read_headers cell_at check_headers check_merged check_sheet is_merged lookup insert
sheet_lem = refl

rank_lem :
    read_sheet cells (sheet "core.sql" "6")
    ≡ Converted.failed (ConvertError.empty_required_cell "level")
unfolding read_sheet read_rows read_sheet_row read_filled require add_leveled of_block add_rank
    matches_id read_headers cell_at check_headers check_merged check_sheet is_merged lookup insert
rank_lem = refl

duplicate_lem :
    read_sheet cells (sheet "core.python" "1")
    ≡ Converted.failed (ConvertError.duplicate_competency_id "core.python")
unfolding read_sheet read_rows read_sheet_row read_filled require add_leveled of_block add_rank
    matches_id read_headers cell_at check_headers check_merged check_sheet is_merged lookup insert
duplicate_lem = refl

id_lem :
    read_sheet cells (sheet "Core.sql" "1")
    ≡ Converted.failed (ConvertError.empty_required_cell "Core.sql")
unfolding read_sheet read_rows read_sheet_row read_filled require add_leveled of_block add_rank
    matches_id read_headers cell_at check_headers check_merged check_sheet is_merged lookup insert
id_lem = refl

-- The file names its nodes in their order, which is here that of their ids.
abbrev emit : EmitLibrary
emit = record { cells = cells; is_valid = λ nodes. true; safe_dump = first_id }
  where
    first_id : List YamlNode → String
    first_id [] = ""
    first_id (node ∷ nodes) = node.id

-- The first sheet is written before the second one fails; a sheet of notes is skipped.
convert_lem :
    convert emit
      (("_notes", sheet "core.sql" "6")
        ∷ ("backend", sheet "core.sql" "1")
        ∷ ("frontend", sheet "core.sql" "6")
        ∷ [])
      []
    ≡ (some (ConvertError.empty_required_cell "level"), ("backend", "block.core") ∷ [])
unfolding convert convert_sheet canonical order_by place competencies_to_yaml_doc yaml_nodes
    read_sheet read_rows read_sheet_row read_filled require add_leveled of_block add_rank matches_id
    read_headers cell_at check_headers check_merged check_sheet is_merged lookup insert
convert_lem = refl

read_sheet-IsNode_example :
    All
      (IsNode (
        block_node (sample "core.python")
        ∷ competency_node (sample "core.python")
        ∷ competency_node (sample "core.sql")
        ∷ []))
      (block_node (sample "core.python")
        ∷ competency_node (sample "core.python")
        ∷ competency_node (sample "core.sql")
        ∷ [])
unfolding competencies_to_yaml_doc yaml_nodes lookup insert
read_sheet-IsNode_example = read_sheet-IsNode cells (sheet "core.sql" "1") parsed sheet_lem
