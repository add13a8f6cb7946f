-- ===== src/Rubric/Linked.antt =====
-- The document that a sheet becomes in app/backend/services/rubric_importer.py: a block for each of its
-- competencies.
use tech_screen_ai.Prelude.{
  ℕ, ◌≡◌, refl, ap, String, Bool, true, false, not, ◌&&◌, ◌||◌, Option, none, some, is_some, List,
  [], ◌∷◌, map, All, All-mono, arith, if◌then◌else◌, ◌==◌, string_eq, string_eq_iff,
}
use tech_screen_ai.Prelude.Dict.{Dict, lookup, lookup-insert}
use tech_screen_ai.Rubric.Convert.{
  YamlNode, block_id, block_node, second, competency_node, new_block, see_block, yaml_nodes,
  competencies_to_yaml_doc, parsed_values,
}
use tech_screen_ai.Rubric.Importable.{
  IsText, IsLevel, IsEntry, IsCompetency, IsParsed, read_sheet-IsParsed,
}
use tech_screen_ai.Rubric.Sheet.{ParsedLevel, ParsedCompetency, Competencies, read_sheet}
use tech_screen_ai.Rubric.Workbook.{Sheet, CellLibrary, Converted, is_stable_id}

abbrev is_top : String → YamlNode → Bool
is_top id node = node.id == id && not (is_some node.parent)

-- Whether a node with this id and no parent is there.
abbrev pub has_top : String → List YamlNode → Bool
has_top id [] = false
has_top id (node ∷ nodes) = is_top id node || has_top id nodes

abbrev pub IsChild : List YamlNode → YamlNode → Option String → Type 0
IsChild doc node none = node.levels ≡ []
IsChild doc node (some parent) =
    (has_top parent doc ≡ true)
    × ((is_stable_id node.id ≡ true)
        × (IsText node.label_en × (IsText node.label_uk × All IsLevel node.levels)))

-- A block, with no levels; or a competency with a stable id and labels, whose parent is a block of the
-- document and whose levels are levels.
abbrev pub IsNode : List YamlNode → YamlNode → Type 0
IsNode doc node = IsChild doc node node.parent

-- The block of a competency is known, or in the document.
see_block-has_top :
    (blocks : Dict String String) (comp : ParsedCompetency) (nodes : List YamlNode) (slug : String)
    → is_some (lookup slug (see_block blocks comp)) || has_top (block_id slug) nodes ≡ true
    → is_some (lookup slug blocks) || has_top (block_id slug) (new_block blocks comp nodes) ≡ true
see_block-has_top blocks comp nodes slug h = ground (
  arith,
  h,
  lookup-insert comp.block_slug slug comp.block_label blocks,
  string_eq_iff comp.block_slug slug,
  string_eq_iff (block_id comp.block_slug) (block_id slug),
  ap block_id,
)

yaml_nodes-has_top :
    (blocks : Dict String String) (comps : List ParsedCompetency)
    → All
        (λ (c : ParsedCompetency).
          is_some (lookup c.block_slug blocks)
            || has_top (block_id c.block_slug) (yaml_nodes blocks comps)
          ≡ true)
        comps
unfolding yaml_nodes
yaml_nodes-has_top blocks [] = tt
yaml_nodes-has_top blocks (comp ∷ comps) =
    let rest : List YamlNode = yaml_nodes (see_block blocks comp) comps in
    (
      ground (arith, string_eq_iff (block_id comp.block_slug) (block_id comp.block_slug)),
      All-mono
          (λ (c : ParsedCompetency).
            is_some (lookup c.block_slug (see_block blocks comp))
              || has_top (block_id c.block_slug) rest
            ≡ true)
          (λ (c : ParsedCompetency).
            is_some (lookup c.block_slug blocks)
              || has_top (block_id c.block_slug)
                  (new_block blocks comp (competency_node comp ∷ rest))
            ≡ true)
          (λ c h.
            see_block-has_top blocks comp (competency_node comp ∷ rest) c.block_slug
              (ground (arith, h)))
          comps (yaml_nodes-has_top (see_block blocks comp) comps),
    )

levels-IsLevel :
    (levels : Dict ℕ ParsedLevel) → All IsEntry levels → All IsLevel (map second levels)
levels-IsLevel [] h = tt
levels-IsLevel ((rank, level) ∷ levels) (here, rest) = (here, levels-IsLevel levels rest)

abbrev IsPlaced : List YamlNode → ParsedCompetency → Type 0
IsPlaced doc comp = (has_top (block_id comp.block_slug) doc ≡ true) × IsCompetency comp

new_block-IsNode :
    (doc : List YamlNode) (blocks : Dict String String) (comp : ParsedCompetency)
    (nodes : List YamlNode)
    → All (IsNode doc) nodes
    → All (IsNode doc) (new_block blocks comp nodes)
new_block-IsNode doc blocks comp nodes h =
    elim (is_some (lookup comp.block_slug blocks))
      as (λ b. All (IsNode doc) (if b then nodes else block_node comp ∷ nodes)) [
        | true ↦ h
        | false ↦ (refl, h)
      ]

yaml_nodes-IsNode :
    (doc : List YamlNode) (blocks : Dict String String) (comps : List ParsedCompetency)
    → All (IsPlaced doc) comps
    → All (IsNode doc) (yaml_nodes blocks comps)
unfolding yaml_nodes
yaml_nodes-IsNode doc blocks [] h = tt
yaml_nodes-IsNode doc blocks (comp ∷ comps) ((top, (stable, (en, (uk, levels)))), rest) =
    new_block-IsNode doc blocks comp _ (
      (top, (stable, (en, (uk, levels-IsLevel comp.levels levels)))),
      yaml_nodes-IsNode doc (see_block blocks comp) comps rest,
    )

abbrev no_blocks : Dict String String
no_blocks = []

placed :
    (doc : List YamlNode) (parsed : Competencies)
    → All IsParsed parsed
    → All
        (λ (c : ParsedCompetency).
          is_some (lookup c.block_slug no_blocks) || has_top (block_id c.block_slug) doc ≡ true)
        (parsed_values parsed)
    → All (IsPlaced doc) (parsed_values parsed)
unfolding lookup
placed doc [] h tops = tt
placed doc ((id, comp) ∷ parsed) (here, rest) (top, tops) =
    ((top, here), placed doc parsed rest tops)

-- Whatever a sheet holds, if it is read without an exception, every node of the document that it
-- becomes is well-formed: a node with no parent has no levels, and a node with a parent is a
-- competency with a stable id and both labels, whose parent is a node of the document with no
-- parent, and whose levels have a rank from 1 to 5, a label and a descriptor.
pub read_sheet-IsNode :
    (cells : CellLibrary) (sheet : Sheet) (parsed : Competencies)
    → read_sheet cells sheet ≡ Converted.done parsed
    → let doc : List YamlNode = competencies_to_yaml_doc (parsed_values parsed) in
      All (IsNode doc) doc
unfolding competencies_to_yaml_doc
read_sheet-IsNode cells sheet parsed e =
    let doc : List YamlNode = yaml_nodes [] (parsed_values parsed) in
    yaml_nodes-IsNode doc [] (parsed_values parsed) (
      placed doc parsed (read_sheet-IsParsed cells sheet parsed e)
        (yaml_nodes-has_top [] (parsed_values parsed)))
