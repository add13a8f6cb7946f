-- ===== src/Rubric/Receipt.antt =====
-- What an import leaves behind (`RubricImporter.seed`): one version and one audit row, or nothing.
use tech_screen_ai.Prelude.{
  ◌<◌, ℕ, ◌≡◌, refl, ap, ◌∙◌, String, Bool, true, false, Option, none, some, List, [], ◌∷◌, ◌++◌,
  All, for_each-keeps, string_eq, string_eq_iff, arith,
}
use Prim.Native.String.{◌++◌ as append, slice}
use tech_screen_ai.Orchestrator.Command.{Uuid}
use tech_screen_ai.Rubric.Branches.{new_version, seed-elim}
use tech_screen_ai.Rubric.Document.{Document, Documents}
use tech_screen_ai.Rubric.Frame.{IsBlind, materialise_stack-keeps}
use tech_screen_ai.Rubric.Seed.{
  latest, is_current, unwritten, reconcile, load_yaml_dir, File, ImportLibrary, Seeded, add_file,
  add_tree, write_version, seed, compute_payload_hash,
}
use tech_screen_ai.Rubric.Tables.{
  RubricTables, VersionRow, AuditRow, insert_version, insert_stack, insert_block, insert_competency,
  insert_level, insert_topic, insert_audit,
}

abbrev pub roots : RubricTables → List VersionRow × List AuditRow
roots db = (db.versions, db.audit)

roots-IsBlind : (gen : ℕ → Uuid) (version : Uuid) → IsBlind gen version roots
unfolding insert_stack insert_block insert_competency insert_level insert_topic
roots-IsBlind gen version = record {
  stack = λ name db. refl;
  block = λ stack name db. refl;
  competency = λ block name db. refl;
  level = λ competency rank descriptor db. refl;
  topic = λ competency name db. refl;
}

-- The row of the version that a run makes.
abbrev pub version_row : ImportLibrary → ℕ → String → RubricTables → VersionRow
version_row lib now hash db = record {
  id = lib.gen db.drawn;
  created_at = now;
  label = append "tree:" (slice hash 0 8);
  is_active = true;
  payload_hash = hash;
}

abbrev pub receipt : String → AuditRow
receipt hash = record { action = "rubric.versioned"; subject_hash = hash }

module _ (lib : ImportLibrary) (now : ℕ) where
  add_file-keeps :
      (version : Uuid) (file : String × Document) (p : ℕ × RubricTables)
      → roots (add_file lib version file p).1 ≡ roots p.1
  unfolding add_file
  add_file-keeps version (stem, doc) (count, db) =
      materialise_stack-keeps lib.gen version roots (roots-IsBlind lib.gen version) stem doc db

  add_tree-roots :
      (docs : Documents) (hash : String) (db : RubricTables)
      → roots (add_tree lib now docs hash db).1
        ≡ (db.versions ++ version_row lib now hash db ∷ [], db.audit)
  unfolding add_tree insert_version
  add_tree-roots docs hash db =
      for_each-keeps (add_file lib (lib.gen db.drawn)) (λ (p : ℕ × RubricTables). roots p.1)
        (add_file-keeps (lib.gen db.drawn)) docs _

  pub write_version-roots :
      (docs : Documents) (hash : String) (db : RubricTables)
      → roots (write_version lib now docs hash db).1
        ≡ (db.versions ++ version_row lib now hash db ∷ [], db.audit ++ receipt hash ∷ [])
  unfolding write_version insert_audit
  write_version-roots docs hash db =
      ap (λ (r : List VersionRow × List AuditRow). (r.0, r.1 ++ receipt hash ∷ []))
        (add_tree-roots docs hash db)

-- The newest of the versions is the last one.
pub latest-last :
    (rows : List VersionRow) (row : VersionRow)
    → All (λ (r : VersionRow). r.created_at < row.created_at) rows
    → latest (rows ++ row ∷ []) ≡ some row
unfolding latest
latest-last [] row h = refl
latest-last (r ∷ rows) row (here, rest) = rw (latest-last rows row rest) (ground arith)

-- With a version made: its row is the last one, active, beside the earlier rows as they were, and so
-- is its receipt; with none, nothing has changed.
abbrev pub IsRecorded :
    ImportLibrary → ℕ → String → RubricTables → RubricTables → Option Uuid → Type 0
IsRecorded lib now hash db after none = after ≡ db
IsRecorded lib now hash db after (some id) =
    (id ≡ lib.gen db.drawn)
    × (roots after
        ≡ (db.versions ++ version_row lib now hash db ∷ [], db.audit ++ receipt hash ∷ []))

-- An import that makes a version adds exactly one version row, active and last, with the hash of
-- the payload, and exactly one audit row with that hash, and leaves the earlier rows of both
-- tables as they were; every other end, a no-op, a dry run or an exception, leaves all the tables
-- as they were.
pub seed-IsRecorded :
    (lib : ImportLibrary) (now : ℕ) (dry_run : Bool) (files : List File) (db : RubricTables)
    → let run : Seeded × RubricTables = seed lib now dry_run files db in
      IsRecorded lib now (compute_payload_hash lib files) db run.1 (new_version run.0)
unfolding write_version
seed-IsRecorded lib now dry_run files db =
    seed-elim
      (λ run. IsRecorded lib now (compute_payload_hash lib files) db run.1 (new_version run.0)) lib
      now files db (λ s e. rw e refl)
      (λ docs _ _. (refl, write_version-roots lib now docs (compute_payload_hash lib files) db))
      dry_run

write_version-current :
    (lib : ImportLibrary) (now next : ℕ) (dry_run : Bool) (files : List File) (docs : Documents)
    (db : RubricTables)
    → load_yaml_dir lib files ≡ some docs
    → All (λ (row : VersionRow). row.created_at < now) db.versions
    → let hash : String = compute_payload_hash lib files in
      let after : RubricTables = (write_version lib now docs hash db).1 in
      seed lib next dry_run files after ≡ (Seeded.seeded (unwritten true hash), after)
unfolding seed reconcile is_current
write_version-current lib now next dry_run files docs db loaded earlier =
    let hash : String = compute_payload_hash lib files in
    let after : RubricTables = (write_version lib now docs hash db).1 in
    let newest : latest after.versions ≡ some (version_row lib now hash db) =
      ap (λ (r : List VersionRow × List AuditRow). latest r.0)
        (write_version-roots lib now docs hash db)
      ∙ latest-last db.versions (version_row lib now hash db) earlier in
    ground (arith, loaded, newest, string_eq_iff hash hash)

-- After an import that has made a version, later than all there were, importing the same files
-- again is a no-op that leaves the tables as they are.
pub seed-seed :
    (lib : ImportLibrary) (now next : ℕ) (dry_run : Bool) (files : List File) (db : RubricTables)
    (v : Uuid)
    → All (λ (row : VersionRow). row.created_at < now) db.versions
    → new_version (seed lib now false files db).0 ≡ some v
    → let after : RubricTables = (seed lib now false files db).1 in
      seed lib next dry_run files after
      ≡ (Seeded.seeded (unwritten true (compute_payload_hash lib files)), after)
seed-seed lib now next dry_run files db v earlier =
    seed-elim
      (λ run.
        new_version run.0 ≡ some v
        → seed lib next dry_run files run.1
          ≡ (Seeded.seeded (unwritten true (compute_payload_hash lib files)), run.1))
      lib now files db (λ s e h. absurd (ground (arith, e, h)))
      (λ docs loaded _ _. write_version-current lib now next dry_run files docs db loaded earlier)
      false
