-- ===== src/Rubric/Mentions.antt =====
-- Which ids a payload mentions, as the check of scripts/sync_rubric_to_db.py and the import of
-- app/backend/services/rubric_importer.py find it out.
use tech_screen_ai.Prelude.{
  ◌≡◌, refl, String, Bool, false, ◌||◌, is_some, List, [], ◌∷◌, ◌++◌, arith, for_each, ◌==◌,
  string_eq, string_eq_iff,
}
use tech_screen_ai.Prelude.Dict.{Dict, lookup, insert, lookup-insert}
use text.Mathlib.Text.{starts_with}
use tech_screen_ai.Rubric.Document.{Node, Documents}
use tech_screen_ai.Rubric.Gate.{Projection, project, index_node, index_document, index_nodes}
use tech_screen_ai.Rubric.Seed.{member, node_ids, new_ids}

-- Whether a node of the list, of the documents, has this id.
abbrev pub has_id : String → List Node → Bool
has_id id [] = false
has_id id (node ∷ nodes) = node.id == id || has_id id nodes

abbrev pub mentions : String → Documents → Bool
mentions id [] = false
mentions id ((name, doc) ∷ docs) = has_id id doc.nodes || mentions id docs

or_comm : (a b c : Bool) → (a || b) || c ≡ b || (a || c)
or_comm a b c = ground arith

-- The keys of the index.
is_some-insert :
    (k j : String) (v : Projection) (d : Dict String Projection)
    → is_some (lookup k (insert j v d)) ≡ j == k || is_some (lookup k d)
is_some-insert k j v d = ground (arith, lookup-insert j k v d)

index_document-has_id :
    (id : String) (retired : Bool) (nodes : List Node) (index : Dict String Projection)
    → is_some (lookup id (for_each (index_node retired) nodes index))
      ≡ has_id id nodes || is_some (lookup id index)
unfolding for_each index_node
index_document-has_id id retired [] index = refl
index_document-has_id id retired (node ∷ nodes) index = ground (
  arith,
  index_document-has_id id retired nodes (insert node.id (project retired node) index),
  is_some-insert id node.id (project retired node) index,
)

index_documents-mentions :
    (id : String) (docs : Documents) (index : Dict String Projection)
    → is_some (lookup id (for_each index_document docs index))
      ≡ mentions id docs || is_some (lookup id index)
unfolding for_each index_document
index_documents-mentions id [] index = refl
index_documents-mentions id ((name, doc) ∷ docs) index = ground (
  arith,
  index_documents-mentions id docs (for_each (index_node doc.retired) doc.nodes index),
  index_document-has_id id doc.retired doc.nodes index,
)

pub index_nodes-mentions :
    (id : String) (docs : Documents) → is_some (lookup id (index_nodes docs)) ≡ mentions id docs
unfolding index_nodes lookup
index_nodes-mentions id docs = ground (arith, index_documents-mentions id docs [])

-- The ids that the import counts, away from the names of blocks.
member-append :
    (id : String) (xs ys : List String) → member id (xs ++ ys) ≡ member id xs || member id ys
unfolding member
member-append id [] ys = refl
member-append id (x ∷ xs) ys = ground (arith, member-append id xs ys)

member-node_ids :
    (id : String)
    → starts_with id "block." ≡ false
    → (nodes : List Node) → member id (node_ids nodes) ≡ has_id id nodes
unfolding member node_ids
member-node_ids id h [] = refl
member-node_ids id h (node ∷ nodes) =
    ground (arith, member-node_ids id h nodes, string_eq_iff node.id id)

pub member-new_ids :
    (id : String)
    → starts_with id "block." ≡ false
    → (docs : Documents) → member id (new_ids docs) ≡ mentions id docs
unfolding member new_ids
member-new_ids id h [] = refl
member-new_ids id h ((name, doc) ∷ docs) = ground (
  arith,
  member-append id (node_ids doc.nodes) (new_ids docs),
  member-node_ids id h doc.nodes,
  member-new_ids id h docs,
)
