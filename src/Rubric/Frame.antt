-- ===== src/Rubric/Frame.antt =====
-- What `_materialise_stack` leaves alone: whatever none of its inserts changes.
use tech_screen_ai.Prelude.{
  ℕ, ◌≡◌, refl, ◌∙◌, String, Option, none, some, for_each-keeps, string_eq,
}
use tech_screen_ai.Prelude.Dict.{Dict, lookup}
use tech_screen_ai.Orchestrator.Command.{Uuid}
use tech_screen_ai.Rubric.Document.{Node, Document}
use tech_screen_ai.Rubric.Materialise.{
  Pass, under_parent, if_top, add_block, add_level, add_competency, add_competency_under, add_topic,
  add_topic_under, materialise_stack,
}
use tech_screen_ai.Rubric.Tables.{
  RubricTables, insert_stack, insert_block, insert_competency, insert_level, insert_topic,
}

-- A view that shows none of the five inserts under `version`.
pub record IsBlind {ℓ} {R : Type ℓ} (gen : ℕ → Uuid) (version : Uuid) (view : RubricTables → R)
    : Type ℓ where
  pub stack :
      (name : String) (db : RubricTables) → view (insert_stack gen version name db) ≡ view db
  pub block :
      (stack : Uuid) (name : String) (db : RubricTables)
      → view (insert_block gen version stack name db) ≡ view db
  pub competency :
      (block : Uuid) (name : String) (db : RubricTables)
      → view (insert_competency gen version block name db) ≡ view db
  pub level :
      (competency : Uuid) (rank : ℕ) (descriptor : String) (db : RubricTables)
      → view (insert_level gen version competency rank descriptor db) ≡ view db
  pub topic :
      (competency : Uuid) (name : String) (db : RubricTables)
      → view (insert_topic gen version competency name db) ≡ view db

module _ {ℓ} {R : Type ℓ} (gen : ℕ → Uuid) (version : Uuid) (view : RubricTables → R)
    (blind : IsBlind gen version view) where
  abbrev watched : Pass → R
  watched pass = view pass.db

  if_top-keeps :
      (parent : Option String) (added pass : Pass)
      → watched added ≡ watched pass
      → watched (if_top parent added pass) ≡ watched pass
  if_top-keeps none added pass h = h
  if_top-keeps (some parent) added pass h = refl

  under-keeps :
      (ids : Dict String Uuid) (parent : Option String) (pass : Pass) (add : Uuid → Pass)
      → ((row : Uuid) → watched (add row) ≡ watched pass)
      → watched (under_parent ids parent pass add) ≡ watched pass
  under-keeps ids none pass add h = refl
  under-keeps ids (some parent) pass add h =
      elim (lookup parent ids)
        as (λ found. watched (elim found [ none ↦ pass | some row ↦ add row ]) ≡ watched pass) [
          | none ↦ refl
          | some row ↦ h row
        ]

  add_block-keeps :
      (stack : Uuid) (node : Node) (pass : Pass)
      → watched (add_block gen version stack node pass) ≡ watched pass
  unfolding add_block
  add_block-keeps stack node pass =
      if_top-keeps node.parent _ pass (blind.block stack node.id pass.db)

  add_competency-keeps :
      (node : Node) (pass : Pass) → watched (add_competency gen version node pass) ≡ watched pass
  unfolding add_competency add_competency_under add_level
  add_competency-keeps node pass = under-keeps pass.block_ids node.parent pass _ (λ block.
      for_each-keeps (add_level gen version (gen pass.db.drawn)) watched
        (λ entry p. blind.level (gen pass.db.drawn) entry.level entry.descriptor_en p.db)
        node.levels _
      ∙ blind.competency block node.id pass.db)

  add_topic-keeps :
      (node : Node) (pass : Pass) → watched (add_topic gen version node pass) ≡ watched pass
  unfolding add_topic add_topic_under
  add_topic-keeps node pass =
      under-keeps pass.competency_ids node.parent pass _
        (λ competency. blind.topic competency node.id pass.db)

  pub materialise_stack-keeps :
      (name : String) (doc : Document) (db : RubricTables)
      → watched (materialise_stack gen version name doc db) ≡ view db
  unfolding materialise_stack
  materialise_stack-keeps name doc db =
      for_each-keeps (add_topic gen version) watched add_topic-keeps _ _
      ∙ (for_each-keeps (add_competency gen version) watched add_competency-keeps _ _
          ∙ (for_each-keeps (add_block gen version (gen db.drawn)) watched
                (add_block-keeps (gen db.drawn)) _ _
              ∙ blind.stack name db))
