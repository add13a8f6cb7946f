-- ===== src/Rubric/Workbook.antt =====
-- A sheet of the workbook, its header and its cells: the first half of `_read_sheet` in
-- app/backend/services/rubric_importer.py.
use Prim.Native.Char.{Char}
use tech_screen_ai.Prelude.{
  ℕ, suc, ◌+◌, String, Bool, true, false, not, ◌&&◌, ◌||◌, Option, none, some, is_some, List, [],
  ◌∷◌, get_elem?, leb, nat_eq, if◌then◌else◌, ◌==◌, string_eq,
}
use tech_screen_ai.Prelude.Dict.{Dict, lookup, insert}
use tech_screen_ai.Prelude.Int.{ℤ}

-- `str(value)` of a cell's value, and `none` for an empty cell.
abbrev pub Cell : Type 0
Cell = Option String

-- A range of merged cells, its columns counted from 1.
pub record MergedRange : Type 0 where
  pub min_col : ℕ
  pub max_col : ℕ
  pub min_row : ℕ
  pub max_row : ℕ

pub record Sheet : Type 0 where
  pub rows : List (List Cell)
  pub merged : List MergedRange

-- `norm` is the strip and the NFC form of `_norm`; `slugify` is `_slugify`; `parse_int` is `int`, `none`
-- where it raises `ValueError`; `evidence` splits a cell at its semicolons.
pub record CellLibrary : Type 0 where
  pub norm : String → String
  pub lower : String → String
  pub slugify : String → String
  pub parse_int : String → Option ℤ
  pub evidence : String → List String

-- The exceptions of the conversion.
pub data ConvertError : Type 0 where
  unknown_column : String → ConvertError
  empty_required_cell : String → ConvertError
  duplicate_competency_id : String → ConvertError
  merged_key_column : String → ConvertError
  schema_violated : String → ConvertError

pub data Converted (A : Type 0) : Type 0 where
  done : A → Converted A
  failed : ConvertError → Converted A

abbrev pub and_then : {A B : Type 0} → Converted A → (A → Converted B) → Converted B
and_then (Converted.done a) next = next a
and_then (Converted.failed error) next = Converted.failed error

abbrev required_headers : List String
required_headers =
    "block" ∷ "competency_id" ∷ "competency_label_uk" ∷ "competency_label_en" ∷ "level"
    ∷ "descriptor_en" ∷ "level_label_uk" ∷ []

abbrev key_columns : List String
key_columns = "block" ∷ "competency_id" ∷ "topic" ∷ "level" ∷ []

abbrev one_of : String → Char → Bool
one_of String.[] c = false
one_of (String.◌∷◌ d s) c = String.◌∷◌ c "" == String.◌∷◌ d "" || one_of s c

abbrev letters : String
letters = "abcdefghijklmnopqrstuvwxyz"

abbrev word_chars : String
word_chars = "abcdefghijklmnopqrstuvwxyz0123456789_"

-- _STABLE_ID_RE, from the inside of a segment or from its beginning.
unfoldable pub matches_id : Bool → String → Bool
matches_id inside String.[] = inside
matches_id inside (String.◌∷◌ c s) =
    let within = matches_id true s in
    let after = matches_id false s in
    if inside
    then (if one_of word_chars c then within else String.◌∷◌ c "" == "." && after)
    else one_of letters c && within

abbrev pub is_stable_id : String → Bool
is_stable_id id = matches_id false id

module _ (cells : CellLibrary) where
  -- `_norm`
  abbrev pub norm_cell : Cell → String
  norm_cell none = ""
  norm_cell (some value) = cells.norm value

  -- The columns of the header from one on.
  unfoldable pub read_headers : ℕ → List Cell → Dict String ℕ → Dict String ℕ
  read_headers index [] headers = headers
  read_headers index (cell ∷ row) headers =
      read_headers (suc index) row
        (if norm_cell cell == "" then headers else insert (norm_cell cell) index headers)

  -- `cell_at`
  unfoldable pub cell_at : Dict String ℕ → List Cell → String → String
  cell_at headers row name = elim (lookup name headers) [
    | none ↦ ""
    | some index ↦ elim (get_elem? row index) [ none ↦ "" | some cell ↦ norm_cell cell ]
  ]

-- The first name that has no column.
unfoldable pub check_headers : List String → Dict String ℕ → Converted (Dict String ℕ)
check_headers [] headers = Converted.done headers
check_headers (name ∷ names) headers =
    let rest = check_headers names headers in
    if is_some (lookup name headers)
    then rest
    else Converted.failed (ConvertError.unknown_column name)

-- Whether a range of several rows covers the column.
unfoldable pub is_merged : ℕ → List MergedRange → Bool
is_merged column [] = false
is_merged column (range ∷ ranges) =
    (leb range.min_col column
      && (leb column range.max_col && not (nat_eq range.min_row range.max_row)))
    || is_merged column ranges

unfoldable pub check_merged :
    List String → List MergedRange → Dict String ℕ → Converted (Dict String ℕ)
check_merged [] ranges headers = Converted.done headers
check_merged (name ∷ names) ranges headers =
    let rest = check_merged names ranges headers in
    elim (lookup name headers) [
      | none ↦ rest
      | some index ↦
          if is_merged (index + 1) ranges
          then Converted.failed (ConvertError.merged_key_column name)
          else rest
    ]

-- The header of a sheet, or the exception about it.
unfoldable pub check_sheet : CellLibrary → List Cell → List MergedRange → Converted (Dict String ℕ)
check_sheet cells row ranges =
    and_then (check_headers required_headers (read_headers cells 0 row []))
      (check_merged key_columns ranges)
