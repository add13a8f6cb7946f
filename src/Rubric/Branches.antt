-- ===== src/Rubric/Branches.antt =====
-- The branches of `RubricImporter.seed`: it ends with the tables as they were, or writes a version.
use tech_screen_ai.Prelude.{
  ℕ, ◌≡◌, refl, String, Bool, true, false, Option, none, some, List, [], ◌∷◌, if◌then◌else◌,
}
use tech_screen_ai.Orchestrator.Command.{Uuid}
use tech_screen_ai.Rubric.Document.{Documents}
use tech_screen_ai.Rubric.Seed.{
  File, ImportLibrary, Seeded, unwritten, write_version, admitted, reconcile, seed, load_yaml_dir,
  compute_payload_hash, is_current, is_taken, latest, disappeared, prior_names, new_ids,
}
use tech_screen_ai.Rubric.Tables.{RubricTables}

-- The id of the version that a run has made.
abbrev pub new_version : Seeded → Option Uuid
new_version (Seeded.seeded result) = result.new_version_id
new_version _ = none

module _ {κ} (P : Seeded × RubricTables → Type κ) where
  if-elim :
      (b : Bool) (x y : Seeded × RubricTables) → P x → (b ≡ false → P y) → P (if b then x else y)
  if-elim true x y left right = left
  if-elim false x y left right = right refl

  -- A predicate of a run's end, from the ends with the tables as they were and the write.
  module _ (lib : ImportLibrary) (now : ℕ) (files : List File) (db : RubricTables)
      (kept : (s : Seeded) → new_version s ≡ none → P (s, db))
      (made : (docs : Documents)
        → load_yaml_dir lib files ≡ some docs
        → is_taken (compute_payload_hash lib files) db.versions ≡ false
        → P (write_version lib now docs (compute_payload_hash lib files) db)) where
    abbrev hash : String
    hash = compute_payload_hash lib files

    admitted-elim :
        (docs : Documents) (dry : Bool) (gone : List String)
        → load_yaml_dir lib files ≡ some docs
        → P (admitted lib now dry docs hash db gone)
    unfolding admitted
    admitted-elim docs dry (id ∷ ids) h = kept (Seeded.rename_forbidden (id ∷ ids)) refl
    admitted-elim docs true [] h = kept (Seeded.seeded (unwritten false hash)) refl
    admitted-elim docs false [] h =
        if-elim (is_taken hash db.versions) (Seeded.duplicate_payload, db)
          (write_version lib now docs hash db) (kept Seeded.duplicate_payload refl) (made docs h)

    reconcile-elim :
        (docs : Documents) (dry : Bool)
        → load_yaml_dir lib files ≡ some docs
        → P (reconcile lib now dry docs hash db)
    unfolding reconcile
    reconcile-elim docs dry h =
        let gone : List String = disappeared (prior_names (latest db.versions) db) (new_ids docs) in
        if-elim (is_current hash (latest db.versions)) (Seeded.seeded (unwritten true hash), db)
          (admitted lib now dry docs hash db gone) (kept (Seeded.seeded (unwritten true hash)) refl)
          (λ _. admitted-elim docs dry gone h)

    pub seed-elim : (dry : Bool) → P (seed lib now dry files db)
    unfolding seed
    seed-elim dry =
        (elim (load_yaml_dir lib files)
            as (λ loaded.
              load_yaml_dir lib files ≡ loaded
              → P (elim loaded as (λ _. Seeded × RubricTables) [
                | none ↦ (Seeded.schema_violation, db)
                | some docs ↦ reconcile lib now dry docs hash db
              ])) [
                | none ↦ λ _. kept Seeded.schema_violation refl
                | some docs ↦ λ h. reconcile-elim docs dry h
              ])
          refl
