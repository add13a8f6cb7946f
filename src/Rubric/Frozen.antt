-- ===== src/Rubric/Frozen.antt =====
-- The frozen copies through an import (`RubricImporter.seed`): those of earlier versions stay.
use tech_screen_ai.Prelude.{
  ℕ, ◌≡◌, ◌≢◌, refl, ap, ◌∙◌, String, Bool, true, false, List, for_each-keeps, select-last, ◌==◌,
  string_eq, string_eq_iff, arith,
}
use tech_screen_ai.Orchestrator.Command.{Uuid}
use tech_screen_ai.Rubric.Document.{Document, Documents}
use tech_screen_ai.Rubric.Branches.{seed-elim}
use tech_screen_ai.Rubric.Frame.{IsBlind, materialise_stack-keeps}
use tech_screen_ai.Rubric.Seed.{
  File, ImportLibrary, add_file, add_tree, write_version, seed, compute_payload_hash,
}
use tech_screen_ai.Rubric.Snapshot.{Rows, rows_of, Collation, snapshot_rubric, of_rows}
use tech_screen_ai.Rubric.Tables.{
  RubricTables, VersionRow, StackRow, BlockRow, CompetencyRow, LevelRow, TopicRow, insert_stack,
  insert_block, insert_competency, insert_level, insert_topic, insert_version, insert_audit,
}

pub differs : (a b : Uuid) → b ≢ a → (a == b) ≡ false
differs a b ne = ground (arith, string_eq_iff a b)

module _ (gen : ℕ → Uuid) (version w : Uuid) (other : (version == w) ≡ false) where
  insert_stack-keeps :
      (name : String) (db : RubricTables)
      → rows_of w (insert_stack gen version name db) ≡ rows_of w db
  unfolding rows_of insert_stack
  insert_stack-keeps name db =
      rw
        (select-last (λ (row : StackRow). row.version == w) db.stacks
          (record { id = gen db.drawn; version = version; name = name }) other)
        refl

  insert_block-keeps :
      (stack : Uuid) (name : String) (db : RubricTables)
      → rows_of w (insert_block gen version stack name db) ≡ rows_of w db
  unfolding rows_of insert_block
  insert_block-keeps stack name db =
      rw
        (select-last (λ (row : BlockRow). row.version == w) db.blocks
          (record {
            id = gen db.drawn;
            version = version;
            stack = stack;
            name = name;
            position = 0;
          })
          other)
        refl

  insert_competency-keeps :
      (block : Uuid) (name : String) (db : RubricTables)
      → rows_of w (insert_competency gen version block name db) ≡ rows_of w db
  unfolding rows_of insert_competency
  insert_competency-keeps block name db =
      rw
        (select-last (λ (row : CompetencyRow). row.version == w) db.competencies
          (record { id = gen db.drawn; version = version; block = block; name = name }) other)
        refl

  insert_level-keeps :
      (competency : Uuid) (rank : ℕ) (descriptor : String) (db : RubricTables)
      → rows_of w (insert_level gen version competency rank descriptor db) ≡ rows_of w db
  unfolding rows_of insert_level
  insert_level-keeps competency rank descriptor db =
      rw
        (select-last (λ (row : LevelRow). row.version == w) db.levels
          (record {
            id = gen db.drawn;
            version = version;
            competency = competency;
            rank = rank;
            descriptor = descriptor;
          })
          other)
        refl

  insert_topic-keeps :
      (competency : Uuid) (name : String) (db : RubricTables)
      → rows_of w (insert_topic gen version competency name db) ≡ rows_of w db
  unfolding rows_of insert_topic
  insert_topic-keeps competency name db =
      rw
        (select-last (λ (row : TopicRow). row.version == w) db.topics
          (record { id = gen db.drawn; version = version; competency = competency; name = name })
          other)
        refl

  pub rows_of-IsBlind : IsBlind gen version (rows_of w)
  rows_of-IsBlind = record {
    stack = insert_stack-keeps;
    block = insert_block-keeps;
    competency = insert_competency-keeps;
    level = insert_level-keeps;
    topic = insert_topic-keeps;
  }

module _ (lib : ImportLibrary) (w : Uuid) where
  insert_version-keeps :
      (now : ℕ) (label hash : String) (db : RubricTables)
      → (lib.gen db.drawn == w) ≡ false
      → rows_of w (insert_version lib.gen now label hash db) ≡ rows_of w db
  unfolding rows_of insert_version
  insert_version-keeps now label hash db other =
      rw
        (select-last (λ (row : VersionRow). row.id == w) db.versions
          (record {
            id = lib.gen db.drawn;
            created_at = now;
            label = label;
            is_active = true;
            payload_hash = hash;
          })
          other)
        refl

  abbrev rows : ℕ × RubricTables → Rows
  rows (count, db) = rows_of w db

  add_file-keeps :
      (version : Uuid)
      → (version == w) ≡ false
      → (file : String × Document) (p : ℕ × RubricTables)
      → rows (add_file lib version file p) ≡ rows p
  unfolding add_file
  add_file-keeps version other (stem, doc) (count, db) =
      materialise_stack-keeps lib.gen version (rows_of w) (rows_of-IsBlind lib.gen version w other)
        stem doc db

  write_version-keeps :
      (now : ℕ) (docs : Documents) (hash : String) (db : RubricTables)
      → (lib.gen db.drawn == w) ≡ false
      → rows_of w (write_version lib now docs hash db).1 ≡ rows_of w db
  unfolding write_version add_tree insert_audit rows_of
  write_version-keeps now docs hash db other =
      for_each-keeps (add_file lib (lib.gen db.drawn)) rows
        (add_file-keeps (lib.gen db.drawn) other) docs _
      ∙ insert_version-keeps now _ hash db other

  pub seed-keeps :
      (now : ℕ) (dry_run : Bool) (files : List File) (db : RubricTables)
      → (lib.gen db.drawn == w) ≡ false
      → rows_of w (seed lib now dry_run files db).1 ≡ rows_of w db
  seed-keeps now dry_run files db other =
      seed-elim (λ run. rows_of w run.1 ≡ rows_of w db) lib now files db (λ s _. refl)
        (λ docs _ _. write_version-keeps now docs (compute_payload_hash lib files) db other) dry_run

-- Whatever an import does, the frozen copy of every version but the one whose id it draws is as it
-- was before, and so is its absence.
pub snapshot-seed :
    (lib : ImportLibrary) (collation : Collation) (now : ℕ) (dry_run : Bool) (files : List File)
    (db : RubricTables) (v : Uuid)
    → v ≢ lib.gen db.drawn
    → snapshot_rubric collation (seed lib now dry_run files db).1 v ≡ snapshot_rubric collation db v
unfolding snapshot_rubric
snapshot-seed lib collation now dry_run files db v fresh =
    ap (λ (rows : Rows). of_rows collation v rows.labels rows)
      (seed-keeps lib v now dry_run files db (differs (lib.gen db.drawn) v fresh))
