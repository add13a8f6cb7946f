-- ===== src/Rubric/Materialise.antt =====
-- `_materialise_stack` of app/backend/services/rubric_importer.py: the rows of one file, in three
-- passes over its nodes. A row's id comes from the database: `gen n` is the n-th.
use tech_screen_ai.Prelude.{ℕ, suc, String, Option, none, some, List, [], for_each, string_eq}
use tech_screen_ai.Prelude.Dict.{Dict, lookup, insert}
use tech_screen_ai.Orchestrator.Command.{Uuid}
use tech_screen_ai.Rubric.Document.{LevelEntry, Node, Document, nodes_by_id, values}
use tech_screen_ai.Rubric.Tables.{
  RubricTables, insert_stack, insert_block, insert_competency, insert_level, insert_topic,
}

-- `block_ids` and `competency_ids`, `inserted`, and the tables.
pub record Pass : Type 0 where
  pub block_ids : Dict String Uuid
  pub competency_ids : Dict String Uuid
  pub inserted : ℕ
  pub db : RubricTables

-- The first for a node with no parent, the second for the others.
abbrev pub if_top : Option String → Pass → Pass → Pass
if_top none added pass = added
if_top (some parent) added pass = pass

-- What a row under a parent's row does, if the parent has one in `ids`.
abbrev pub under_parent : Dict String Uuid → Option String → Pass → (Uuid → Pass) → Pass
under_parent ids none pass add = pass
under_parent ids (some parent) pass add = elim (lookup parent ids) [
  | none ↦ pass
  | some row ↦ add row
]

module _ (gen : ℕ → Uuid) (version : Uuid) where
  -- Pass 1, on one node.
  unfoldable pub add_block : Uuid → Node → Pass → Pass
  add_block stack node pass =
      if_top node.parent
        (record pass {
          block_ids = insert node.id (gen pass.db.drawn) pass.block_ids;
          inserted = suc pass.inserted;
          db = insert_block gen version stack node.id pass.db;
        })
        pass

  unfoldable pub add_level : Uuid → LevelEntry → Pass → Pass
  add_level competency entry pass = record pass {
    inserted = suc pass.inserted;
    db = insert_level gen version competency entry.level entry.descriptor_en pass.db;
  }

  -- Pass 2, on a node whose parent is the block with this id.
  unfoldable pub add_competency_under : Node → Pass → Uuid → Pass
  add_competency_under node pass block =
      for_each (add_level (gen pass.db.drawn)) node.levels (record pass {
        competency_ids = insert node.id (gen pass.db.drawn) pass.competency_ids;
        inserted = suc pass.inserted;
        db = insert_competency gen version block node.id pass.db;
      })

  -- Pass 2, on one node.
  unfoldable pub add_competency : Node → Pass → Pass
  add_competency node pass =
      under_parent pass.block_ids node.parent pass (add_competency_under node pass)

  unfoldable pub add_topic_under : Node → Pass → Uuid → Pass
  add_topic_under node pass competency = record pass {
    inserted = suc pass.inserted;
    db = insert_topic gen version competency node.id pass.db;
  }

  -- Pass 3, on one node.
  unfoldable pub add_topic : Node → Pass → Pass
  add_topic node pass =
      under_parent pass.competency_ids node.parent pass (add_topic_under node pass)

  unfoldable pub materialise_stack : String → Document → RubricTables → Pass
  materialise_stack name doc db =
      let nodes : List Node = values (nodes_by_id doc) in
      for_each add_topic nodes (
        for_each add_competency nodes (
          for_each (add_block (gen db.drawn)) nodes (record {
            block_ids = [];
            competency_ids = [];
            inserted = 1;
            db = insert_stack gen version name db;
          })))
