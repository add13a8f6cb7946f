-- ===== src/Rubric/Tables.antt =====
-- The tables of the rubric (app/backend/db/models/rubric.py) and `audit_log`, as lists of rows in the
-- order of their insertion, and the inserts of app/backend/services/rubric_importer.py.
use tech_screen_ai.Prelude.{ℕ, suc, String, Bool, true, List, [], ◌∷◌, ◌++◌}
use tech_screen_ai.Orchestrator.Command.{Uuid}

pub record VersionRow : Type 0 where
  pub id : Uuid
  pub created_at : ℕ
  pub label : String
  pub is_active : Bool
  pub payload_hash : String

pub record StackRow : Type 0 where
  pub id : Uuid
  pub version : Uuid
  pub name : String

pub record BlockRow : Type 0 where
  pub id : Uuid
  pub version : Uuid
  pub stack : Uuid
  pub name : String
  pub position : ℕ

pub record CompetencyRow : Type 0 where
  pub id : Uuid
  pub version : Uuid
  pub block : Uuid
  pub name : String

pub record LevelRow : Type 0 where
  pub id : Uuid
  pub version : Uuid
  pub competency : Uuid
  pub rank : ℕ
  pub descriptor : String

pub record TopicRow : Type 0 where
  pub id : Uuid
  pub version : Uuid
  pub competency : Uuid
  pub name : String

pub record AuditRow : Type 0 where
  pub action : String
  pub subject_hash : String

-- `drawn` counts the ids that the database has generated.
pub record RubricTables : Type 0 where
  pub versions : List VersionRow
  pub stacks : List StackRow
  pub blocks : List BlockRow
  pub competencies : List CompetencyRow
  pub levels : List LevelRow
  pub topics : List TopicRow
  pub audit : List AuditRow
  pub drawn : ℕ

-- `gen` is the n-th id that the column's default generates.
module _ (gen : ℕ → Uuid) where
  unfoldable pub insert_version : ℕ → String → String → RubricTables → RubricTables
  insert_version now label hash db = record db {
    drawn = suc db.drawn;
    versions =
        db.versions
        ++ record {
          id = gen db.drawn;
          created_at = now;
          label = label;
          is_active = true;
          payload_hash = hash;
        }
          ∷ [];
  }

  unfoldable pub insert_stack : Uuid → String → RubricTables → RubricTables
  insert_stack version name db = record db {
    drawn = suc db.drawn;
    stacks = db.stacks ++ record { id = gen db.drawn; version = version; name = name } ∷ [];
  }

  -- The position is the column's default.
  unfoldable pub insert_block : Uuid → Uuid → String → RubricTables → RubricTables
  insert_block version stack name db = record db {
    drawn = suc db.drawn;
    blocks =
        db.blocks
        ++ record { id = gen db.drawn; version = version; stack = stack; name = name; position = 0 }
          ∷ [];
  }

  unfoldable pub insert_competency : Uuid → Uuid → String → RubricTables → RubricTables
  insert_competency version block name db = record db {
    drawn = suc db.drawn;
    competencies =
        db.competencies
        ++ record { id = gen db.drawn; version = version; block = block; name = name } ∷ [];
  }

  unfoldable pub insert_level : Uuid → Uuid → ℕ → String → RubricTables → RubricTables
  insert_level version competency rank descriptor db = record db {
    drawn = suc db.drawn;
    levels =
        db.levels
        ++ record {
          id = gen db.drawn;
          version = version;
          competency = competency;
          rank = rank;
          descriptor = descriptor;
        }
          ∷ [];
  }

  unfoldable pub insert_topic : Uuid → Uuid → String → RubricTables → RubricTables
  insert_topic version competency name db = record db {
    drawn = suc db.drawn;
    topics =
        db.topics
        ++ record { id = gen db.drawn; version = version; competency = competency; name = name }
          ∷ [];
  }

unfoldable pub insert_audit : String → String → RubricTables → RubricTables
insert_audit action hash db = record db {
  audit = db.audit ++ record { action = action; subject_hash = hash } ∷ [];
}
