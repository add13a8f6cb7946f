-- ===== src/Orchestrator/Coverage/Levels.antt =====
-- What the loop over an assessor output leaves in a cell, against a reading of the whole output.
use Prim.Native.Nat.{max}
use tech_screen_ai.Prelude.{
  ℕ, String, ◌≡◌, refl, ap, ◌∙◌, Bool, true, false, Option, none, some, List, [], ◌∷◌, arith,
  if◌then◌else◌, ◌==◌, string_eq, string_eq_iff,
}
use tech_screen_ai.Prelude.Dict.{get_or, lookup-insert}
use tech_screen_ai.Agents.Output.{AssessmentItem}
use tech_screen_ai.Orchestrator.State.{CoverageCell, Coverage, empty_cell}
use tech_screen_ai.Orchestrator.Coverage.{record_level, record_item, record_items}

-- The cell of a node, a fresh one if there is none.
abbrev pub cell_of : String → Coverage → CoverageCell
cell_of node coverage = get_or node empty_cell coverage

-- The assessments of one node, in order.
unfoldable pub items_of : String → List AssessmentItem → List AssessmentItem
items_of node [] = []
items_of node (item ∷ items) =
    let rest = items_of node items in if item.rubric_node_id == node then item ∷ rest else rest

abbrev pub higher : Option ℕ → ℕ → Option ℕ
higher none level = some level
higher (some best) level = some (max best level)

abbrev pub highest : Option ℕ → List AssessmentItem → Option ℕ
highest best [] = best
highest best (item ∷ items) = highest (higher best item.level) items

abbrev pub last_level : Option ℕ → List AssessmentItem → Option ℕ
last_level latest [] = latest
last_level latest (item ∷ items) = last_level (some item.level) items

-- What the items of one node make of its cell.
abbrev fold_cell : CoverageCell → List AssessmentItem → CoverageCell
fold_cell cell [] = cell
fold_cell cell (item ∷ items) = fold_cell (record_level cell item) items

cell_of-record_item :
    (node : String) (coverage : Coverage) (item : AssessmentItem)
    → cell_of node (record_item coverage item) ≡ (
        if item.rubric_node_id == node
        then record_level (cell_of node coverage) item
        else cell_of node coverage)
unfolding record_item
cell_of-record_item node coverage item = ground (
  arith,
  string_eq_iff item.rubric_node_id node,
  lookup-insert item.rubric_node_id node (record_level (cell_of item.rubric_node_id coverage) item)
      coverage,
)

fold_cell-if :
    (b : Bool) (cell : CoverageCell) (item : AssessmentItem) (items : List AssessmentItem)
    → fold_cell (if b then record_level cell item else cell) items
      ≡ fold_cell cell (if b then item ∷ items else items)
fold_cell-if true cell item items = refl
fold_cell-if false cell item items = refl

best_level-record_level :
    (cell : CoverageCell) (item : AssessmentItem)
    → (record_level cell item).best_level ≡ higher cell.best_level item.level
unfolding record_level
best_level-record_level cell item = ground arith

latest_level-record_level :
    (cell : CoverageCell) (item : AssessmentItem)
    → (record_level cell item).latest_level ≡ some item.level
unfolding record_level
latest_level-record_level cell item = refl

cell_of-record_items :
    (node : String) (coverage : Coverage) (items : List AssessmentItem)
    → cell_of node (record_items coverage items)
      ≡ fold_cell (cell_of node coverage) (items_of node items)
unfolding record_items items_of
cell_of-record_items node coverage [] = refl
cell_of-record_items node coverage (item ∷ items) =
    cell_of-record_items node (record_item coverage item) items
    ∙ ap (λ c. fold_cell c (items_of node items)) (cell_of-record_item node coverage item)
    ∙ fold_cell-if (item.rubric_node_id == node) (cell_of node coverage) item (items_of node items)

fold_cell-levels :
    (cell : CoverageCell) (items : List AssessmentItem)
    → ((fold_cell cell items).best_level ≡ highest cell.best_level items)
      × ((fold_cell cell items).latest_level ≡ last_level cell.latest_level items)
fold_cell-levels cell [] = (refl, refl)
fold_cell-levels cell (item ∷ items) =
    let (best, latest) = fold_cell-levels (record_level cell item) items in
    (
      best ∙ ap (λ b. highest b items) (best_level-record_level cell item),
      latest ∙ ap (λ l. last_level l items) (latest_level-record_level cell item),
    )

-- After the items of an output are recorded, the best level of each node is the highest of its old
-- best level and the levels that the items give the node, and its latest level is the last of
-- these, if there is one.
pub record_items-levels :
    (node : String) (coverage : Coverage) (items : List AssessmentItem)
    → let before = cell_of node coverage in
      let after = cell_of node (record_items coverage items) in
      (after.best_level ≡ highest before.best_level (items_of node items))
      × (after.latest_level ≡ last_level before.latest_level (items_of node items))
record_items-levels node coverage items =
    rw cell_of-record_items (fold_cell-levels (cell_of node coverage) (items_of node items))
