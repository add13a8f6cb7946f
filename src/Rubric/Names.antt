-- ===== src/Rubric/Names.antt =====
-- The competencies of a version that `RubricImporter.seed` has made: their names are ids of the
-- payload's nodes.
use tech_screen_ai.Prelude.{
  ℕ, ◌≡◌, refl, sym, ap, ◌∙◌, String, true, false, Option, none, some, List, [], ◌∷◌, ◌++◌, map,
  All, All-append, if◌then◌else◌, for_each-All, for_each-keeps, keep, select, select-append, ◌==◌,
  string_eq,
}
use tech_screen_ai.Prelude.Dict.{Dict, lookup, insert}
use mathlib.Core.Path.{subst}
use tech_screen_ai.Orchestrator.Command.{Uuid}
use tech_screen_ai.Rubric.Document.{Node, Document, add_nodes, nodes_by_id, values}
use tech_screen_ai.Rubric.Materialise.{
  Pass, if_top, under_parent, add_block, add_level, add_competency, add_competency_under, add_topic,
  add_topic_under, materialise_stack,
}
use tech_screen_ai.Rubric.Seed.{in_version}
use tech_screen_ai.Rubric.Tables.{
  RubricTables, CompetencyRow, insert_stack, insert_block, insert_competency, insert_level,
  insert_topic,
}

-- A node that has a parent has an id with the property.
abbrev pub Fits : (String → Type 0) → Option String → String → Type 0
Fits Q none id = Unit
Fits Q (some parent) id = Q id

abbrev pub DocumentFits : (String → Type 0) → String × Document → Type 0
DocumentFits Q (name, doc) = All (λ (node : Node). Fits Q node.parent node.id) doc.nodes

-- names of the competencies of the version
abbrev pub names : Uuid → RubricTables → List String
names v db = map (λ (c : CompetencyRow). c.name) (select (in_version v) db.competencies)

map-append :
    (xs ys : List CompetencyRow)
    → map (λ (c : CompetencyRow). c.name) (xs ++ ys)
      ≡ map (λ (c : CompetencyRow). c.name) xs ++ map (λ (c : CompetencyRow). c.name) ys
map-append [] ys = refl
map-append (x ∷ xs) ys = ap (λ zs. x.name ∷ zs) (map-append xs ys)

module _ (Q : String → Type 0) where
  abbrev FitsNode : Node → Type 0
  FitsNode node = Fits Q node.parent node.id

  insert-Fits :
      (node : Node) (d : Dict String Node)
      → FitsNode node
      → All FitsNode (values d)
      → All FitsNode (values (insert node.id node d))
  unfolding insert values
  insert-Fits node [] fit fits = (fit, tt)
  insert-Fits node ((key, other) ∷ d) fit fits =
      (elim (key == node.id)
        as (λ b.
          All FitsNode
            (values (if b then (key, node) ∷ d else (key, other) ∷ insert node.id node d))) [
              | true ↦ (fit, fits.1)
              | false ↦ (fits.0, insert-Fits node d fit fits.1)
            ])

  add_nodes-Fits :
      (d : Dict String Node) (nodes : List Node)
      → All FitsNode nodes
      → All FitsNode (values d)
      → All FitsNode (values (add_nodes d nodes))
  unfolding add_nodes
  add_nodes-Fits d [] fit fits = fits
  add_nodes-Fits d (node ∷ nodes) (here, rest) fits =
      add_nodes-Fits (insert node.id node d) nodes rest (insert-Fits node d here fits)

module _ (gen : ℕ → Uuid) (v : Uuid) (Q : String → Type 0) where
  abbrev IsNamed : Pass → Type 0
  IsNamed pass = All Q (names v pass.db)

  single-Q :
      (row : CompetencyRow)
      → Q row.name
      → All Q (map (λ (c : CompetencyRow). c.name) (select (in_version v) (row ∷ [])))
  unfolding select
  single-Q row q =
      elim (row.version == v)
        as (λ b. All Q (map (λ (c : CompetencyRow). c.name) (keep (in_version v) b row []))) [
          | true ↦ (q, tt)
          | false ↦ tt
        ]

  insert_competency-IsNamed :
      (block : Uuid) (name : String) (db : RubricTables)
      → Q name
      → All Q (names v db)
      → All Q (names v (insert_competency gen v block name db))
  unfolding insert_competency
  insert_competency-IsNamed block name db q h =
      let row : CompetencyRow = record {
        id = gen db.drawn;
        version = v;
        block = block;
        name = name;
      } in
      subst (All Q)
        (sym (
          ap (map (λ (c : CompetencyRow). c.name))
            (select-append (in_version v) db.competencies (row ∷ []))
          ∙ map-append (select (in_version v) db.competencies) (select (in_version v) (row ∷ []))))
        (All-append Q (names v db)
          (map (λ (c : CompetencyRow). c.name) (select (in_version v) (row ∷ []))) h
          (single-Q row q))

  under-IsNamed :
      (ids : Dict String Uuid) (parent : Option String) (id : String) (pass : Pass)
      (add : Uuid → Pass)
      → Fits Q parent id
      → IsNamed pass
      → (Q id → (row : Uuid) → IsNamed (add row))
      → IsNamed (under_parent ids parent pass add)
  under-IsNamed ids none id pass add fit h added = h
  under-IsNamed ids (some parent) id pass add fit h added =
      elim (lookup parent ids)
        as (λ found. IsNamed (elim found as (λ _. Pass) [ none ↦ pass | some row ↦ add row ])) [
          | none ↦ h
          | some row ↦ added fit row
        ]

  if_top-names :
      (parent : Option String) (added pass : Pass)
      → names v added.db ≡ names v pass.db
      → names v (if_top parent added pass).db ≡ names v pass.db
  if_top-names none added pass h = h
  if_top-names (some parent) added pass h = refl

  add_block-IsNamed :
      (stack : Uuid) (node : Node) (pass : Pass)
      → names v (add_block gen v stack node pass).db ≡ names v pass.db
  unfolding add_block insert_block
  add_block-IsNamed stack node pass = if_top-names node.parent _ pass refl

  add_competency-IsNamed :
      (node : Node) (pass : Pass)
      → Fits Q node.parent node.id
      → IsNamed pass
      → IsNamed (add_competency gen v node pass)
  unfolding add_competency add_competency_under add_level insert_level
  add_competency-IsNamed node pass fit h =
      under-IsNamed pass.block_ids node.parent node.id pass _ fit h (λ q block.
        subst (All Q)
          (sym (
            for_each-keeps (add_level gen v (gen pass.db.drawn)) (λ (p : Pass). names v p.db)
              (λ entry p. refl) node.levels _))
          (insert_competency-IsNamed block node.id pass.db q h))

  add_topic-IsNamed :
      (node : Node) (pass : Pass)
      → Fits Q node.parent node.id
      → IsNamed pass
      → IsNamed (add_topic gen v node pass)
  unfolding add_topic add_topic_under insert_topic
  add_topic-IsNamed node pass fit h =
      under-IsNamed pass.competency_ids node.parent node.id pass _ fit h (λ q competency. h)

  pub materialise_stack-IsNamed :
      (name : String) (doc : Document) (db : RubricTables)
      → DocumentFits Q (name, doc)
      → All Q (names v db)
      → IsNamed (materialise_stack gen v name doc db)
  unfolding materialise_stack nodes_by_id insert_stack values
  materialise_stack-IsNamed name doc db fit h =
      let nodes : List Node = values (nodes_by_id doc) in
      let fits : All (FitsNode Q) nodes = add_nodes-Fits Q [] doc.nodes fit tt in
      for_each-All (add_topic gen v) IsNamed (FitsNode Q) add_topic-IsNamed nodes _ fits (
        for_each-All (add_competency gen v) IsNamed (FitsNode Q) add_competency-IsNamed nodes _ fits
          (subst (All Q)
            (sym (
              for_each-keeps (add_block gen v (gen db.drawn)) (λ (p : Pass). names v p.db)
                (add_block-IsNamed (gen db.drawn)) nodes _))
            h))
