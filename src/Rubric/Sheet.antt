-- ===== src/Rubric/Sheet.antt =====
-- The rows of a sheet: the loop of `_read_sheet` in app/backend/services/rubric_importer.py.
use tech_screen_ai.Prelude.{
  ℕ, String, Bool, not, ◌&&◌, Option, none, some, is_some, List, [], ◌∷◌, leb, if◌then◌else◌, ◌==◌,
  string_eq,
}
use tech_screen_ai.Prelude.Dict.{Dict, lookup, insert}
use tech_screen_ai.Prelude.Int.{ℤ, pos}
use tech_screen_ai.Rubric.Gate.{rank_eq}
use tech_screen_ai.Rubric.Workbook.{
  Cell, Sheet, CellLibrary, ConvertError, Converted, and_then, cell_at, check_sheet, is_stable_id,
}

-- `_ParsedLevel`
pub record ParsedLevel : Type 0 where
  pub level : ℕ
  pub label_uk : String
  pub descriptor_en : String
  pub evidence_examples_en : List String

-- `_ParsedCompetency`
pub record ParsedCompetency : Type 0 where
  pub id : String
  pub block_slug : String
  pub block_label : String
  pub label_uk : String
  pub label_en : String
  pub topic : String
  pub retired : Bool
  pub levels : Dict ℕ ParsedLevel

abbrev pub Competencies : Type 0
Competencies = Dict String ParsedCompetency

abbrev pub required_cells : List String
required_cells =
    "block" ∷ "competency_label_uk" ∷ "competency_label_en" ∷ "level" ∷ "descriptor_en"
    ∷ "level_label_uk" ∷ []

-- 1 <= level <= 5
abbrev pub rank_of : Option ℤ → Option ℕ
rank_of (some (pos n)) = if leb 1 n && leb n 5 then some n else none
rank_of _ = none

abbrev refuse : {A : Type 0} → String → Converted A
refuse message = Converted.failed (ConvertError.empty_required_cell message)

-- `cell` is the row's cell of a column.
module _ (cells : CellLibrary) (cell : String → String) where
  -- The first of the names whose cell is empty.
  unfoldable pub require : List String → Converted Unit
  require [] = Converted.done tt
  require (name ∷ names) = let rest = require names in if cell name == "" then refuse name else rest

  abbrev pub new_competency : String → ParsedCompetency
  new_competency id = record {
    id = id;
    block_slug = cells.slugify (cell "block");
    block_label = cell "block";
    label_uk = cell "competency_label_uk";
    label_en = cell "competency_label_en";
    topic = cell "topic";
    retired = cells.lower (cells.norm (cell "competency_retired")) == "true";
    levels = [];
  }

  abbrev pub new_level : ℕ → ParsedLevel
  new_level level = record {
    level = level;
    label_uk = cell "level_label_uk";
    descriptor_en = cell "descriptor_en";
    evidence_examples_en =
        if cell "evidence_examples" == "" then [] else cells.evidence (cell "evidence_examples");
  }

  -- A level of a competency that has not declared it.
  unfoldable pub add_rank : String → ℕ → ParsedCompetency → Competencies → Converted Competencies
  add_rank id level competency parsed =
      if is_some (lookup level competency.levels)
      then Converted.failed (ConvertError.duplicate_competency_id id)
      else Converted.done (
          insert id
            (record competency { levels = insert level (new_level level) competency.levels })
            parsed)

  -- The competency that the row is of: a new one, or one of the same block.
  unfoldable pub of_block : String → Option ParsedCompetency → Converted ParsedCompetency
  of_block id none = Converted.done (new_competency id)
  of_block id (some competency) =
      if competency.block_slug == cells.slugify (cell "block")
      then Converted.done competency
      else Converted.failed (ConvertError.duplicate_competency_id id)

  unfoldable pub add_leveled : String → Option ℕ → Competencies → Converted Competencies
  add_leveled id none parsed = refuse "level"
  add_leveled id (some level) parsed =
      and_then (of_block id (lookup id parsed)) (λ competency. add_rank id level competency parsed)

  -- A row with a stable id.
  unfoldable pub read_filled : String → Competencies → Converted Competencies
  read_filled id parsed =
      and_then (require required_cells)
        (λ _. add_leveled id (rank_of (cells.parse_int (cell "level"))) parsed)

  -- One row; one with no id is skipped.
  unfoldable pub read_sheet_row : Competencies → Converted Competencies
  read_sheet_row parsed =
      let id = cell "competency_id" in
      if id == ""
      then Converted.done parsed
      else if not (is_stable_id id)
      then refuse id
      else read_filled id parsed

unfoldable pub read_rows :
    CellLibrary → Dict String ℕ → List (List Cell) → Competencies → Converted Competencies
read_rows cells headers [] parsed = Converted.done parsed
read_rows cells headers (row ∷ rows) parsed =
    and_then (read_sheet_row cells (cell_at cells headers row) parsed)
      (read_rows cells headers rows)

unfoldable pub read_sheet : CellLibrary → Sheet → Converted Competencies
read_sheet cells sheet = elim sheet.rows [
  | [] ↦ Converted.failed (ConvertError.unknown_column "")
  | header ∷ rows ↦
      and_then (check_sheet cells header sheet.merged) (λ headers. read_rows cells headers rows [])
]
