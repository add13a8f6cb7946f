-- ===== src/Rubric/Importable.antt =====
-- The documents that a sheet of the workbook becomes (app/backend/services/rubric_importer.py).
use tech_screen_ai.Prelude.{
  ℕ, ◌≤◌, ◌≡◌, refl, String, Bool, true, false, not, Option, none, some, is_some, List, [], ◌∷◌,
  All, arith, if◌then◌else◌, ◌==◌, string_eq,
}
use mathlib.Core.Path.{subst}
use tech_screen_ai.Prelude.Dict.{Dict, lookup, insert, All-insert, All-lookup}
use tech_screen_ai.Prelude.Int.{ℤ, pos, negsuc}
use tech_screen_ai.Rubric.Gate.{rank_eq}
use tech_screen_ai.Rubric.Sheet.{
  ParsedLevel, ParsedCompetency, Competencies, rank_of, require, add_rank, of_block, add_leveled,
  read_filled, read_sheet_row, read_rows, read_sheet, new_competency, new_level, required_cells,
}
use tech_screen_ai.Rubric.Workbook.{
  Cell, Sheet, CellLibrary, ConvertError, Converted, and_then, cell_at, check_sheet, is_stable_id,
}

abbrev pub IsText : String → Type 0
IsText s = (s == "") ≡ false

-- A level of rank 1 to 5 with its texts.
abbrev pub IsLevel : ParsedLevel → Type 0
IsLevel level =
    (1 ≤ level.level) × ((level.level ≤ 5) × (IsText level.label_uk × IsText level.descriptor_en))

abbrev pub IsEntry : ℕ × ParsedLevel → Type 0
IsEntry (rank, level) = IsLevel level

abbrev pub IsCompetency : ParsedCompetency → Type 0
IsCompetency comp =
    (is_stable_id comp.id ≡ true)
    × (IsText comp.label_en × (IsText comp.label_uk × All IsEntry comp.levels))

abbrev pub IsParsed : String × ParsedCompetency → Type 0
IsParsed (id, comp) = IsCompetency comp

and_then-done :
    {A B : Type 0} (c : Converted A) (next : A → Converted B) (b : B)
    → and_then c next ≡ Converted.done b
    → (a : A) × ((c ≡ Converted.done a) × (next a ≡ Converted.done b))
and_then-done (Converted.done a) next b e = (a, (refl, e))
and_then-done (Converted.failed error) next b e = absurd (ground (arith, e))

if-split :
    {P A : Type 0} (b : Bool) (x y r : A)
    → (b ≡ true → x ≡ r → P)
    → (b ≡ false → y ≡ r → P)
    → (if b then x else y) ≡ r
    → P
if-split true x y r left right e = left refl e
if-split false x y r left right e = right refl e

rank_of-bounds : (n : Option ℤ) (rank : ℕ) → rank_of n ≡ some rank → (1 ≤ rank) × (rank ≤ 5)
rank_of-bounds none rank e = absurd (ground (arith, e))
rank_of-bounds (some (pos n)) rank e = (ground (arith, e), ground (arith, e))
rank_of-bounds (some (negsuc n)) rank e = absurd (ground (arith, e))

module _ (cells : CellLibrary) (cell : String → String) where
  abbrev IsFilled : String → Type 0
  IsFilled name = IsText (cell name)

  require-IsFilled :
      (names : List String) → require cells cell names ≡ Converted.done tt → All IsFilled names
  unfolding require
  require-IsFilled [] e = tt
  require-IsFilled (name ∷ names) e =
      (ground (arith, e), require-IsFilled names (ground (arith, e)))

  of_block-IsCompetency :
      (id : String) (found : Option ParsedCompetency) (parsed : Competencies)
      (comp : ParsedCompetency)
      → is_stable_id id ≡ true
      → All IsFilled required_cells
      → All IsParsed parsed
      → lookup id parsed ≡ found
      → of_block cells cell id found ≡ Converted.done comp
      → IsCompetency comp
  unfolding of_block
  of_block-IsCompetency id none parsed comp stable (block, (uk, (en, rest))) h e made =
      subst IsCompetency {x = new_competency cells cell id} {y = comp} (ground (arith, made))
        (stable, (en, (uk, tt)))
  of_block-IsCompetency id (some old) parsed comp stable filled h e made =
      if-split (old.block_slug == cells.slugify (cell "block")) (Converted.done old)
        (Converted.failed (ConvertError.duplicate_competency_id id)) (Converted.done comp)
        (λ _ same.
          subst IsCompetency {x = old} {y = comp} (ground (arith, same))
            (All-lookup IsParsed id parsed h e))
        (λ _ same. absurd (ground (arith, same))) made

  add_rank-IsParsed :
      (id : String) (level : ℕ) (comp : ParsedCompetency) (parsed result : Competencies)
      → (1 ≤ level) × (level ≤ 5)
      → All IsFilled required_cells
      → IsCompetency comp
      → All IsParsed parsed
      → add_rank cells cell id level comp parsed ≡ Converted.done result
      → All IsParsed result
  unfolding add_rank
  add_rank-IsParsed id level comp parsed result (low, high)
        (block, (uk, (en, (lv, (desc, (label, rest)))))) (stable, (cen, (cuk, levels))) h made =
      let more : ParsedCompetency = record comp {
        levels = insert level (new_level cells cell level) comp.levels;
      } in
      let holds : IsCompetency more = (
        stable,
        (
          cen,
          (
            cuk,
            All-insert IsEntry level (new_level cells cell level) comp.levels
                (low, (high, (label, desc))) levels,
          ),
        ),
      ) in
      if-split (is_some (lookup level comp.levels))
        (Converted.failed (ConvertError.duplicate_competency_id id))
        (Converted.done (insert id more parsed)) (Converted.done result)
        (λ _ same. absurd (ground (arith, same)))
        (λ _ same.
          subst (All IsParsed) {x = insert id more parsed} {y = result} (ground (arith, same))
            (All-insert IsParsed id more parsed holds h))
        made

  add_leveled-IsParsed :
      (id : String) (rank : Option ℕ) (parsed result : Competencies)
      → ((level : ℕ) → rank ≡ some level → (1 ≤ level) × (level ≤ 5))
      → is_stable_id id ≡ true
      → All IsFilled required_cells
      → All IsParsed parsed
      → add_leveled cells cell id rank parsed ≡ Converted.done result
      → All IsParsed result
  unfolding add_leveled
  add_leveled-IsParsed id none parsed result bounds stable filled h made =
      absurd (ground (arith, made))
  add_leveled-IsParsed id (some level) parsed result bounds stable filled h made =
      let (comp, (found, added)) =
        and_then-done (of_block cells cell id (lookup id parsed))
          (λ c. add_rank cells cell id level c parsed) result made in
      add_rank-IsParsed id level comp parsed result (bounds level refl) filled
        (of_block-IsCompetency id (lookup id parsed) parsed comp stable filled h refl found) h added

  read_sheet_row-IsParsed :
      (parsed result : Competencies)
      → All IsParsed parsed
      → read_sheet_row cells cell parsed ≡ Converted.done result
      → All IsParsed result
  unfolding read_sheet_row read_filled
  read_sheet_row-IsParsed parsed result h made =
      let id : String = cell "competency_id" in
      if-split (id == "") (Converted.done parsed) _ (Converted.done result)
        (λ _ same. subst (All IsParsed) {x = parsed} {y = result} (ground (arith, same)) h)
        (λ _.
          if-split (not (is_stable_id id)) (Converted.failed (ConvertError.empty_required_cell id))
            (read_filled cells cell id parsed) (Converted.done result)
            (λ _ same. absurd (ground (arith, same)))
            (λ stable same.
              let (done, (filled, added)) =
                and_then-done (require cells cell required_cells)
                  (λ _. add_leveled cells cell id (rank_of (cells.parse_int (cell "level"))) parsed)
                  result same in
              add_leveled-IsParsed id (rank_of (cells.parse_int (cell "level"))) parsed result
                (rank_of-bounds (cells.parse_int (cell "level"))) (ground (arith, stable))
                (require-IsFilled required_cells filled) h added))
        made

read_rows-IsParsed :
    (cells : CellLibrary) (headers : Dict String ℕ) (rows : List (List Cell))
    (parsed result : Competencies)
    → All IsParsed parsed
    → read_rows cells headers rows parsed ≡ Converted.done result
    → All IsParsed result
unfolding read_rows
read_rows-IsParsed cells headers [] parsed result h made =
    subst (All IsParsed) {x = parsed} {y = result} (ground (arith, made)) h
read_rows-IsParsed cells headers (row ∷ rows) parsed result h made =
    let (next, (first, rest)) =
      and_then-done (read_sheet_row cells (cell_at cells headers row) parsed)
        (read_rows cells headers rows) result made in
    read_rows-IsParsed cells headers rows next result
      (read_sheet_row-IsParsed cells (cell_at cells headers row) parsed next h first) rest

pub read_sheet-IsParsed :
    (cells : CellLibrary) (sheet : Sheet) (result : Competencies)
    → read_sheet cells sheet ≡ Converted.done result
    → All IsParsed result
unfolding read_sheet
read_sheet-IsParsed cells sheet result made = from sheet.rows made
  where
    from :
        (rows : List (List Cell))
        → (elim rows as (λ _. Converted Competencies) [
          | [] ↦ Converted.failed (ConvertError.unknown_column "")
          | header ∷ rows ↦
              and_then
                (check_sheet cells header sheet.merged)
                (λ headers. read_rows cells headers rows [])
        ])
          ≡ Converted.done result
        → All IsParsed result
    from [] e = absurd (ground (arith, e))
    from (header ∷ rows) e =
        let (headers, (checked, read)) =
          and_then-done (check_sheet cells header sheet.merged)
            (λ headers. read_rows cells headers rows []) result e in
        read_rows-IsParsed cells headers rows [] result tt read
