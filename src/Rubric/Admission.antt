-- ===== src/Rubric/Admission.antt =====
-- A payload that the check of scripts/sync_rubric_to_db.py passes, imported over its baseline.
use tech_screen_ai.Prelude.{
  ℕ, ◌≡◌, ◌≢◌, sym, ap, ◌∙◌, ◌<◌, String, Bool, true, false, Option, none, some, List, [], ◌∷◌, All,
  arith, for_each-All, select, string_eq, string_eq_iff,
}
use mathlib.Core.Path.{subst}
use text.Mathlib.Text.{starts_with}
use tech_screen_ai.Orchestrator.Command.{Uuid}
use tech_screen_ai.Rubric.Branches.{new_version, seed-elim}
use tech_screen_ai.Rubric.Document.{Node, Documents}
use tech_screen_ai.Rubric.Gate.{is_forbidden, detect_destructive_changes}
use tech_screen_ai.Rubric.Mentions.{has_id, mentions}
use tech_screen_ai.Rubric.Names.{Fits, DocumentFits, names, materialise_stack-IsNamed}
use tech_screen_ai.Rubric.Receipt.{latest-last, version_row, write_version-roots}
use tech_screen_ai.Rubric.Removal.{IsNameOf, disappeared-checked}
use tech_screen_ai.Rubric.Seed.{
  File, ImportLibrary, Seeded, add_file, add_tree, write_version, admitted, reconcile, seed,
  load_yaml_dir, compute_payload_hash, latest, prior_names, disappeared, new_ids,
}
use tech_screen_ai.Rubric.Tables.{RubricTables, VersionRow, AuditRow, insert_version, insert_audit}

-- Only nodes with no parent have the names of blocks.
abbrev pub IsBlockNamed : Documents → Type 0
IsBlockNamed docs = All (DocumentFits (λ id. starts_with id "block." ≡ false)) docs

has_id-Fits :
    (Q : String → Type 0) (nodes : List Node)
    → All (λ (node : Node). Fits (λ id. starts_with id "block." ≡ false) node.parent node.id) nodes
    → ((id : String) → has_id id nodes ≡ true → starts_with id "block." ≡ false → Q id)
    → All (λ (node : Node). Fits Q node.parent node.id) nodes
has_id-Fits Q [] named q = tt
has_id-Fits Q (node ∷ nodes) (here, rest) q = (
  fit node.parent here (q node.id (ground (arith, string_eq_iff node.id node.id))),
  has_id-Fits Q nodes rest (λ id h. q id (ground arith)),
)
  where
    fit :
        (parent : Option String)
        → Fits (λ id. starts_with id "block." ≡ false) parent node.id
        → (starts_with node.id "block." ≡ false → Q node.id)
        → Fits Q parent node.id
    fit none h q = tt
    fit (some parent) h q = q h

mentions-Fits :
    (Q : String → Type 0) (docs : Documents)
    → IsBlockNamed docs
    → ((id : String) → mentions id docs ≡ true → starts_with id "block." ≡ false → Q id)
    → All (DocumentFits Q) docs
mentions-Fits Q [] named q = tt
mentions-Fits Q ((name, doc) ∷ docs) (here, rest) q = (
  has_id-Fits Q doc.nodes here (λ id h. q id (ground arith)),
  mentions-Fits Q docs rest (λ id h. q id (ground arith)),
)

module _ (lib : ImportLibrary) where
  write_version-names :
      (Q : String → Type 0) (now : ℕ) (docs : Documents) (hash : String) (db : RubricTables)
      → All (DocumentFits Q) docs
      → names (lib.gen db.drawn) db ≡ []
      → All Q (names (lib.gen db.drawn) (write_version lib now docs hash db).1)
  unfolding write_version add_tree insert_audit add_file insert_version
  write_version-names Q now docs hash db fits fresh =
      for_each-All (add_file lib (lib.gen db.drawn))
        (λ (p : ℕ × RubricTables). All Q (names (lib.gen db.drawn) p.1)) (DocumentFits Q)
        (λ file p fit h.
          materialise_stack-IsNamed lib.gen (lib.gen db.drawn) Q file.0 file.1 p.1 fit h)
        docs _ fits (subst (All Q) (sym fresh) tt)

  -- The import finds no id gone: it ends in some other way.
  admitted-admits :
      (now : ℕ) (dry_run : Bool) (docs : Documents) (hash : String) (db : RubricTables)
      (gone ids : List String)
      → gone ≡ []
      → (admitted lib now dry_run docs hash db gone).0 ≢ Seeded.rename_forbidden ids
  unfolding admitted write_version
  admitted-admits now dry_run docs hash db (id ∷ gone) ids h = absurd (ground arith)
  admitted-admits now true docs hash db [] ids h = ground arith
  admitted-admits now false docs hash db [] ids h = ground arith

  seed-admits :
      (now : ℕ) (dry_run : Bool) (files : List File) (docs : Documents) (db : RubricTables)
      (ids : List String)
      → load_yaml_dir lib files ≡ some docs
      → disappeared (prior_names (latest db.versions) db) (new_ids docs) ≡ []
      → (seed lib now dry_run files db).0 ≢ Seeded.rename_forbidden ids
  unfolding seed reconcile
  seed-admits now dry_run files docs db ids loaded h = ground (
    arith,
    admitted-admits now dry_run docs (compute_payload_hash lib files) db
        (disappeared (prior_names (latest db.versions) db) (new_ids docs)) ids h,
  )

  -- The names that the next import compares.
  prior-names :
      (now : ℕ) (docs : Documents) (hash : String) (db : RubricTables)
      → All (λ (row : VersionRow). row.created_at < now) db.versions
      → let after : RubricTables = (write_version lib now docs hash db).1 in
        prior_names (latest after.versions) after ≡ names (lib.gen db.drawn) after
  unfolding prior_names
  prior-names now docs hash db earlier =
      let after : RubricTables = (write_version lib now docs hash db).1 in
      ap (λ (row : Option VersionRow). prior_names row after)
        (ap (λ (r : List VersionRow × List AuditRow). latest r.0)
            (write_version-roots lib now docs hash db)
          ∙ latest-last db.versions (version_row lib now hash db) earlier)

  write_version-admits :
      (now next : ℕ) (dry_run : Bool) (current_files : List File) (baseline current : Documents)
      (hash : String) (db : RubricTables) (ids : List String)
      → load_yaml_dir lib current_files ≡ some current
      → IsBlockNamed baseline
      → names (lib.gen db.drawn) db ≡ []
      → All (λ (row : VersionRow). row.created_at < now) db.versions
      → select is_forbidden (detect_destructive_changes baseline current) ≡ []
      → (seed lib next dry_run current_files (write_version lib now baseline hash db).1).0
        ≢ Seeded.rename_forbidden ids
  write_version-admits now next dry_run current_files baseline current hash db ids loaded named
        fresh earlier checked =
      seed-admits next dry_run current_files current _ ids loaded (
        disappeared-checked baseline current _ checked (
          subst (All (IsNameOf baseline)) (sym (prior-names now baseline hash db earlier)) (
            write_version-names (IsNameOf baseline) now baseline hash db
              (mentions-Fits (IsNameOf baseline) baseline named
                (λ id there not_block. (there, not_block)))
              fresh)))

-- Over tables whose latest version was made by importing the baseline, an import of files in which
-- the check finds no forbidden change never ends in RenameForbidden. In the baseline only nodes
-- with no parent have ids that begin with block., the ids and the time of the first import are
-- new, and both directories load.
pub seed-detect_destructive_changes :
    (lib : ImportLibrary) (now next : ℕ) (dry_run : Bool) (baseline_files current_files : List File)
    (baseline current : Documents) (db : RubricTables) (v : Uuid) (ids : List String)
    → load_yaml_dir lib baseline_files ≡ some baseline
    → load_yaml_dir lib current_files ≡ some current
    → IsBlockNamed baseline
    → names (lib.gen db.drawn) db ≡ []
    → All (λ (row : VersionRow). row.created_at < now) db.versions
    → new_version (seed lib now false baseline_files db).0 ≡ some v
    → select is_forbidden (detect_destructive_changes baseline current) ≡ []
    → (seed lib next dry_run current_files (seed lib now false baseline_files db).1).0
      ≢ Seeded.rename_forbidden ids
seed-detect_destructive_changes lib now next dry_run baseline_files current_files baseline current
      db v ids loaded loaded' named fresh earlier made checked =
    seed-elim
      (λ run.
        new_version run.0 ≡ some v
        → (seed lib next dry_run current_files run.1).0 ≢ Seeded.rename_forbidden ids)
      lib now baseline_files db (λ s e h. absurd (ground (arith, e, h)))
      (λ docs e _ _.
        subst
          (λ docs.
            (seed lib next dry_run current_files
              (write_version lib now docs (compute_payload_hash lib baseline_files) db).1).0
            ≢ Seeded.rename_forbidden ids)
          (ground (arith, loaded, e))
          (write_version-admits lib now next dry_run current_files baseline current _ db ids loaded'
            named fresh earlier checked))
      false made
