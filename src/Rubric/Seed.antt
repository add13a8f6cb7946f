-- ===== src/Rubric/Seed.antt =====
-- `RubricImporter.seed` of app/backend/services/rubric_importer.py: one transaction, whose writes an
-- exception takes back. The advisory lock makes the transactions of several runs follow each other.
use Prim.Native.String.{◌++◌ as append, slice}
use tech_screen_ai.Prelude.{
  ℕ, ◌+◌, suc, String, Bool, true, false, not, ◌||◌, Option, none, some, List, [], ◌∷◌, ◌++◌, map,
  leb, if◌then◌else◌, select, for_each, ◌==◌, string_eq,
}
use text.Mathlib.Text.{starts_with}
use tech_screen_ai.Orchestrator.Command.{Uuid}
use tech_screen_ai.Rubric.Document.{Node, Document, Documents}
use tech_screen_ai.Rubric.Materialise.{Pass, materialise_stack}
use tech_screen_ai.Rubric.Tables.{
  RubricTables, VersionRow, CompetencyRow, insert_version, insert_audit,
}

-- A file of the directory: the stem of its name, and its text.
pub record File : Type 0 where
  pub stem : String
  pub text : String

-- `parse` is `yaml.safe_load` with the validation by the schema, `none` where either refuses;
-- `gen n` is the n-th id that the database generates.
pub record ImportLibrary : Type 0 where
  pub parse : String → Option Document
  pub sha256 : String → String
  pub gen : ℕ → Uuid

pub record SeedResult : Type 0 where
  pub noop : Bool
  pub new_version_id : Option Uuid
  pub new_payload_hash : String
  pub rows_inserted : ℕ

-- How `seed` ends. `duplicate_payload` is the database's: the hash of another version.
pub data Seeded : Type 0 where
  seeded : SeedResult → Seeded
  schema_violation : Seeded
  rename_forbidden : List String → Seeded
  duplicate_payload : Seeded

abbrev pub with_document : String → Option Document → Option Documents → Option Documents
with_document stem (some doc) (some docs) = some ((stem, doc) ∷ docs)
with_document stem _ _ = none

-- The bytes that are hashed: the texts, with a zero byte between two.
unfoldable pub payload_bytes : List File → String
payload_bytes [] = ""
payload_bytes (file ∷ []) = file.text
payload_bytes (file ∷ files) = append file.text (append "\0" (payload_bytes files))

-- The later_version row; of two that are equally late, the earlier insert.
abbrev pub later_version : VersionRow → Option VersionRow → Option VersionRow
later_version row none = some row
later_version row (some other) =
    if leb other.created_at row.created_at then some row else some other

-- ORDER BY created_at DESC LIMIT 1
unfoldable pub latest : List VersionRow → Option VersionRow
latest [] = none
latest (row ∷ rows) = later_version row (latest rows)

unfoldable pub is_current : String → Option VersionRow → Bool
is_current hash none = false
is_current hash (some row) = row.payload_hash == hash

abbrev pub in_version : Uuid → CompetencyRow → Bool
in_version version row = row.version == version

-- prior_active
unfoldable pub prior_names : Option VersionRow → RubricTables → List String
prior_names none db = []
prior_names (some row) db =
    map (λ (c : CompetencyRow). c.name) (select (in_version row.id) db.competencies)

unfoldable pub member : String → List String → Bool
member id [] = false
member id (other ∷ ids) = other == id || member id ids

-- The ids of the nodes but the blocks, the active ones and the retired ones in one list.
unfoldable pub node_ids : List Node → List String
node_ids [] = []
node_ids (node ∷ nodes) =
    let ids = node_ids nodes in if starts_with node.id "block." then ids else node.id ∷ ids

unfoldable pub new_ids : Documents → List String
new_ids [] = []
new_ids ((stem, doc) ∷ docs) = node_ids doc.nodes ++ new_ids docs

unfoldable pub disappeared : List String → List String → List String
disappeared prior ids = select (λ id. not (member id ids)) prior

unfoldable pub is_taken : String → List VersionRow → Bool
is_taken hash [] = false
is_taken hash (row ∷ rows) = row.payload_hash == hash || is_taken hash rows

-- The outcomes that write nothing: a no-op, and a dry run.
abbrev pub unwritten : Bool → String → SeedResult
unwritten noop hash = record {
  noop = noop;
  new_version_id = none;
  new_payload_hash = hash;
  rows_inserted = 0;
}

module _ (lib : ImportLibrary) where
  unfoldable pub load_yaml_dir : List File → Option Documents
  load_yaml_dir [] = some []
  load_yaml_dir (file ∷ files) = with_document file.stem (lib.parse file.text) (load_yaml_dir files)

  unfoldable pub compute_payload_hash : List File → String
  compute_payload_hash files = lib.sha256 (payload_bytes files)

  -- One file's rows, on the count and the tables.
  unfoldable pub add_file : Uuid → String × Document → ℕ × RubricTables → ℕ × RubricTables
  add_file version (stem, doc) (count, db) =
      let done : Pass = materialise_stack lib.gen version stem doc db in
      (count + done.inserted, done.db)

  -- The tables with the new version and its tree, and the rows inserted so far.
  unfoldable pub add_tree : ℕ → Documents → String → RubricTables → ℕ × RubricTables
  add_tree now docs hash db =
      for_each (add_file (lib.gen db.drawn)) docs
        (1, insert_version lib.gen now (append "tree:" (slice hash 0 8)) hash db)

  unfoldable pub write_version : ℕ → Documents → String → RubricTables → Seeded × RubricTables
  write_version now docs hash db =
      let tree : ℕ × RubricTables = add_tree now docs hash db in
      (
        Seeded.seeded (record {
          noop = false;
          new_version_id = some (lib.gen db.drawn);
          new_payload_hash = hash;
          rows_inserted = suc tree.0;
        }),
        insert_audit "rubric.versioned" hash tree.1,
      )

  unfoldable pub admitted :
      ℕ → Bool → Documents → String → RubricTables → List String → Seeded × RubricTables
  admitted now dry_run docs hash db (id ∷ ids) = (Seeded.rename_forbidden (id ∷ ids), db)
  admitted now dry_run docs hash db [] =
      if dry_run
      then (Seeded.seeded (unwritten false hash), db)
      else (if is_taken hash db.versions
          then (Seeded.duplicate_payload, db)
          else write_version now docs hash db)

  unfoldable pub reconcile : ℕ → Bool → Documents → String → RubricTables → Seeded × RubricTables
  reconcile now dry_run docs hash db =
      let last : Option VersionRow = latest db.versions in
      if is_current hash last
      then (Seeded.seeded (unwritten true hash), db)
      else admitted now dry_run docs hash db (disappeared (prior_names last db) (new_ids docs))

  unfoldable pub seed : ℕ → Bool → List File → RubricTables → Seeded × RubricTables
  seed now dry_run files db = elim (load_yaml_dir files) [
    | none ↦ (Seeded.schema_violation, db)
    | some docs ↦ reconcile now dry_run docs (compute_payload_hash files) db
  ]
