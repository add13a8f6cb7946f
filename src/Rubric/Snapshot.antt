-- ===== src/Rubric/Snapshot.antt =====
-- The frozen copy of a version's tree: app/backend/services/rubric_snapshot.py, in the shape of
-- app/backend/schemas/rubric_snapshot.py.
use tech_screen_ai.Prelude.{
  ℕ, String, Bool, Option, none, some, List, [], ◌∷◌, map, leb, nat_eq, if◌then◌else◌, select, ◌==◌,
  string_eq,
}
use tech_screen_ai.Prelude.Dict.{Dict}
use tech_screen_ai.Prelude.Sort.{order_by}
use tech_screen_ai.Orchestrator.Command.{Uuid}
use tech_screen_ai.Rubric.Tables.{
  RubricTables, VersionRow, StackRow, BlockRow, CompetencyRow, LevelRow, TopicRow,
}

pub record SnapshotLevel : Type 0 where
  pub id : Uuid
  pub rank : ℕ
  pub descriptor : String

pub record SnapshotTopic : Type 0 where
  pub id : Uuid
  pub name : String

pub record SnapshotCompetency : Type 0 where
  pub id : Uuid
  pub name : String
  pub topics : List SnapshotTopic
  pub levels : List SnapshotLevel

pub record SnapshotCompetencyBlock : Type 0 where
  pub id : Uuid
  pub name : String
  pub position : ℕ
  pub competencies : List SnapshotCompetency

pub record SnapshotStack : Type 0 where
  pub id : Uuid
  pub name : String
  pub competency_blocks : List SnapshotCompetencyBlock

pub record RubricSnapshot : Type 0 where
  pub rubric_tree_version_id : Uuid
  pub label : String
  pub stacks : List SnapshotStack

-- The rows that the queries of `snapshot_rubric` read.
pub record Rows : Type 0 where
  pub labels : List VersionRow
  pub stacks : List StackRow
  pub blocks : List BlockRow
  pub competencies : List CompetencyRow
  pub topics : List TopicRow
  pub levels : List LevelRow

-- WHERE rubric_tree_version_id = :v
unfoldable pub rows_of : Uuid → RubricTables → Rows
rows_of v db = record {
  labels = select (λ (row : VersionRow). row.id == v) db.versions;
  stacks = select (λ (row : StackRow). row.version == v) db.stacks;
  blocks = select (λ (row : BlockRow). row.version == v) db.blocks;
  competencies = select (λ (row : CompetencyRow). row.version == v) db.competencies;
  topics = select (λ (row : TopicRow). row.version == v) db.topics;
  levels = select (λ (row : LevelRow). row.version == v) db.levels;
}

-- The database's orders of texts and of ids.
pub record Collation : Type 0 where
  pub text_before : String → String → Bool
  pub id_before : Uuid → Uuid → Bool

-- topics_by_competency.get(competency_id, [])
unfoldable pub topics_of : Uuid → List TopicRow → List SnapshotTopic
topics_of competency rows =
    map (λ (row : TopicRow). record { id = row.id; name = row.name })
      (select (λ (row : TopicRow). row.competency == competency) rows)

-- levels_by_competency.get(competency_id, [])
unfoldable pub levels_of : Uuid → List LevelRow → List SnapshotLevel
levels_of competency rows =
    map (λ (row : LevelRow). record { id = row.id; rank = row.rank; descriptor = row.descriptor })
      (select (λ (row : LevelRow). row.competency == competency) rows)

-- The column `rubric_snapshot` of the sessions there are; an update of no row does nothing.
unfoldable pub set_snapshot :
    Uuid → RubricSnapshot → Dict Uuid (Option RubricSnapshot) → Dict Uuid (Option RubricSnapshot)
set_snapshot sid snapshot [] = []
set_snapshot sid snapshot ((id, old) ∷ rest) =
    let later = set_snapshot sid snapshot rest in
    (id, if id == sid then some snapshot else old) ∷ later

-- The rows of `WHERE is_active = true`; the query takes one of them, with no order given.
unfoldable pub active_versions : List VersionRow → List VersionRow
active_versions rows = select (λ (row : VersionRow). row.is_active) rows

module _ (collation : Collation) where
  -- ORDER BY name, id
  abbrev pub by_name : String → String → Uuid → Uuid → Bool
  by_name name other id other_id =
      if name == other then collation.id_before id other_id else collation.text_before name other

  -- ORDER BY position, name, id
  abbrev pub block_before : BlockRow → BlockRow → Bool
  block_before a b =
      if nat_eq a.position b.position
      then by_name a.name b.name a.id b.id
      else leb a.position b.position

  -- ORDER BY rank, id
  abbrev pub level_before : LevelRow → LevelRow → Bool
  level_before a b =
      if nat_eq a.rank b.rank then collation.id_before a.id b.id else leb a.rank b.rank

  -- `rows` are ordered, from here on.
  unfoldable pub competencies_of : Rows → Uuid → List SnapshotCompetency
  competencies_of rows block =
      map
        (λ (row : CompetencyRow). record {
          id = row.id;
          name = row.name;
          topics = topics_of row.id rows.topics;
          levels = levels_of row.id rows.levels;
        })
        (select (λ (row : CompetencyRow). row.block == block) rows.competencies)

  unfoldable pub blocks_of : Rows → Uuid → List SnapshotCompetencyBlock
  blocks_of rows stack =
      map
        (λ (row : BlockRow). record {
          id = row.id;
          name = row.name;
          position = row.position;
          competencies = competencies_of rows row.id;
        })
        (select (λ (row : BlockRow). row.stack == stack) rows.blocks)

  unfoldable pub ordered : Rows → Rows
  ordered rows = record rows {
    stacks = order_by (λ a b. by_name a.name b.name a.id b.id) rows.stacks;
    blocks = order_by block_before rows.blocks;
    competencies = order_by (λ a b. by_name a.name b.name a.id b.id) rows.competencies;
    topics = order_by (λ a b. by_name a.name b.name a.id b.id) rows.topics;
    levels = order_by level_before rows.levels;
  }

  unfoldable pub assemble : Uuid → String → Rows → RubricSnapshot
  assemble v label rows = record {
    rubric_tree_version_id = v;
    label = label;
    stacks =
        map
          (λ (row : StackRow). record {
            id = row.id;
            name = row.name;
            competency_blocks = blocks_of rows row.id;
          })
          rows.stacks;
  }

  unfoldable pub of_rows : Uuid → List VersionRow → Rows → Option RubricSnapshot
  of_rows v [] rows = none
  of_rows v (row ∷ _) rows = some (assemble v row.label (ordered rows))

  -- `none` is `RubricSnapshotError`.
  unfoldable pub snapshot_rubric : RubricTables → Uuid → Option RubricSnapshot
  snapshot_rubric db v = let rows : Rows = rows_of v db in of_rows v rows.labels rows

  unfoldable pub freeze_session_rubric :
      RubricTables
      → Uuid
      → Uuid
      → Dict Uuid (Option RubricSnapshot)
      → Option RubricSnapshot × Dict Uuid (Option RubricSnapshot)
  freeze_session_rubric db sid v sessions = elim (snapshot_rubric db v) [
    | none ↦ (none, sessions)
    | some snapshot ↦ (some snapshot, set_snapshot sid snapshot sessions)
  ]

  -- `first` is the row that `LIMIT 1` leaves. The outer `none` is `RubricSnapshotError`.
  unfoldable pub get_active_rubric_snapshot :
      (List VersionRow → Option VersionRow) → RubricTables → Option (Option RubricSnapshot)
  get_active_rubric_snapshot first db = elim (first (active_versions db.versions)) [
    | none ↦ some none
    | some row ↦ elim (snapshot_rubric db row.id) [
      | none ↦ none
      | some snapshot ↦ some (some snapshot)
    ]
  ]
