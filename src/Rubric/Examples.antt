-- ===== src/Rubric/Examples.antt =====
-- Runs of the theorems on a rubric of one stack, and tests of its import and its check.
use tech_screen_ai.Prelude.{
  ℕ, zero, suc, ◌≡◌, refl, String, Bool, true, false, Option, none, some, List, [], ◌∷◌, map,
  if◌then◌else◌, ◌==◌, string_eq, string_eq_iff, arith, select, for_each, ◌≢◌, ap,
}
use Prim.Native.String.{◌++◌ as append}
use tech_screen_ai.Orchestrator.Command.{Uuid}
use tech_screen_ai.Rubric.Admission.{seed-detect_destructive_changes}
use tech_screen_ai.Rubric.Document.{Node, Document, nodes_by_id, add_nodes, values}
use tech_screen_ai.Rubric.Frozen.{snapshot-seed}
use tech_screen_ai.Rubric.Gate.{
  level_changes, changes, change, node_change, index_nodes, index_document, index_node, project,
  detect_destructive_changes,
}
use tech_screen_ai.Rubric.Receipt.{IsRecorded, seed-IsRecorded, seed-seed}
use tech_screen_ai.Rubric.Seed.{
  unwritten, load_yaml_dir, compute_payload_hash, latest, is_current, prior_names, disappeared,
  new_ids, node_ids, member, admitted, is_taken, write_version, add_tree, add_file, reconcile, File,
  ImportLibrary, Seeded, seed, payload_bytes,
}
use tech_screen_ai.Rubric.Snapshot.{Collation, snapshot_rubric, active_versions}
use tech_screen_ai.Rubric.Materialise.{
  add_block, add_level, add_competency, add_competency_under, add_topic, add_topic_under,
  materialise_stack,
}
use tech_screen_ai.Prelude.Dict.{insert, lookup}
use tech_screen_ai.Prelude.Sort.{order_by, place}
use tech_screen_ai.Rubric.Branches.{new_version}
use tech_screen_ai.Rubric.Tables.{
  insert_version, insert_stack, insert_block, insert_competency, insert_level, insert_topic,
  insert_audit, RubricTables, VersionRow,
}

abbrev pub core : Node
core = record { id = "block.core"; parent = none; retired = false; levels = [] }

abbrev pub python : Bool → Node
python retired = record {
  id = "core.python";
  parent = some "block.core";
  retired = retired;
  levels = record { level = 2; descriptor_en = "Explains generators." } ∷ [];
}

abbrev pub asyncio : Node
asyncio = record {
  id = "core.python.asyncio";
  parent = some "core.python";
  retired = false;
  levels = [];
}

abbrev pub first_rubric : Document
first_rubric = record { retired = false; nodes = core ∷ python false ∷ asyncio ∷ [] }

abbrev pub next_rubric : Document
next_rubric = record { retired = false; nodes = python true ∷ core ∷ asyncio ∷ [] }

abbrev pub lost_rubric : Document
lost_rubric = record { retired = false; nodes = core ∷ asyncio ∷ [] }

abbrev parse : String → Option Document
parse text =
    if text == "first"
    then some first_rubric
    else if text == "next"
    then some next_rubric
    else if text == "lost"
    then some lost_rubric
    else none

abbrev gen : ℕ → Uuid
gen zero = "id"
gen (suc n) = append "s" (gen n)

abbrev lib : ImportLibrary
lib = record { parse = parse; sha256 = λ text. text; gen = gen }

abbrev no_rows : RubricTables
no_rows = record {
  versions = [];
  stacks = [];
  blocks = [];
  competencies = [];
  levels = [];
  topics = [];
  audit = [];
  drawn = 0;
}

abbrev files : String → List File
files text = record { stem = "backend"; text = text } ∷ []

unfoldable first : Seeded × RubricTables
first = seed lib 1 false (files "first") no_rows

abbrev collation : Collation
collation = record { text_before = λ a b. true; id_before = λ a b. true }

-- The first import, and an import that has lost an id.
first_lem :
    first.0
    ≡ Seeded.seeded (record {
      noop = false;
      new_version_id = some "id";
      new_payload_hash = "first";
      rows_inserted = 7;
    })
unfolding first seed reconcile load_yaml_dir compute_payload_hash payload_bytes latest is_current
    prior_names disappeared new_ids node_ids member admitted is_taken write_version add_tree
    add_file materialise_stack add_block add_level add_competency add_competency_under add_topic
    add_topic_under nodes_by_id add_nodes values insert lookup for_each select insert_version
    insert_stack insert_block insert_competency insert_level insert_topic insert_audit
first_lem = refl

lost_lem :
    (seed lib 2 false (files "lost") first.1).0 ≡ Seeded.rename_forbidden ("core.python" ∷ [])
unfolding first seed reconcile load_yaml_dir compute_payload_hash payload_bytes latest is_current
    prior_names disappeared new_ids node_ids member admitted is_taken write_version add_tree
    add_file materialise_stack add_block add_level add_competency add_competency_under add_topic
    add_topic_under nodes_by_id add_nodes values insert lookup for_each select insert_version
    insert_stack insert_block insert_competency insert_level insert_topic insert_audit
lost_lem = refl

-- Every version that has been made stays active, so the query of an active one has two answers.
active_lem :
    map
      (λ (row : VersionRow). row.id)
      (active_versions (seed lib 2 false (files "next") first.1).1.versions)
    ≡ "id" ∷ "ssssssid" ∷ []
unfolding active_versions first seed reconcile load_yaml_dir compute_payload_hash payload_bytes
    latest is_current prior_names disappeared new_ids node_ids member admitted is_taken
    write_version add_tree add_file materialise_stack add_block add_level add_competency
    add_competency_under add_topic add_topic_under nodes_by_id add_nodes values insert lookup
    for_each select insert_version insert_stack insert_block insert_competency insert_level
    insert_topic insert_audit
active_lem = refl

-- A rubric that is set back to an earlier one meets the UNIQUE constraint.
abbrev reverted : Seeded
reverted = (seed lib 3 false (files "first") (seed lib 2 false (files "next") first.1).1).0

reverted_lem : reverted ≡ Seeded.duplicate_payload
unfolding first seed reconcile load_yaml_dir compute_payload_hash payload_bytes latest is_current
    prior_names disappeared new_ids node_ids member admitted is_taken write_version add_tree
    add_file materialise_stack add_block add_level add_competency add_competency_under add_topic
    add_topic_under nodes_by_id add_nodes values insert lookup for_each select insert_version
    insert_stack insert_block insert_competency insert_level insert_topic insert_audit
reverted_lem = refl

id-fresh : ◌≢◌ {A = Uuid} "id" "ssssssid"
id-fresh = ground (arith, string_eq_iff "id" "ssssssid")

snapshot-seed_example :
    snapshot_rubric collation (seed lib 2 false (files "next") first.1).1 "id"
    ≡ snapshot_rubric collation first.1 "id"
unfolding first seed reconcile load_yaml_dir compute_payload_hash payload_bytes latest is_current
    prior_names disappeared new_ids node_ids member admitted is_taken write_version add_tree
    add_file materialise_stack add_block add_level add_competency add_competency_under add_topic
    add_topic_under nodes_by_id add_nodes values insert lookup for_each select insert_version
    insert_stack insert_block insert_competency insert_level insert_topic insert_audit
snapshot-seed_example = snapshot-seed lib collation 2 false (files "next") first.1 "id" id-fresh

seed-seed_example :
    seed lib 2 false (files "first") first.1 ≡ (Seeded.seeded (unwritten true "first"), first.1)
unfolding first compute_payload_hash payload_bytes
seed-seed_example =
    seed-seed lib 1 2 false (files "first") no_rows "id" tt (ap new_version first_lem)

seed-IsRecorded_example :
    IsRecorded lib 1
      (compute_payload_hash lib (files "first"))
      no_rows
      first.1
      (new_version first.0)
unfolding first
seed-IsRecorded_example = seed-IsRecorded lib 1 false (files "first") no_rows

seed-detect_destructive_changes_example :
    (seed lib 2 false (files "next") first.1).0 ≢ Seeded.rename_forbidden ("core.python" ∷ [])
unfolding first seed reconcile load_yaml_dir compute_payload_hash payload_bytes latest is_current
    prior_names disappeared new_ids node_ids member admitted is_taken write_version add_tree
    add_file materialise_stack add_block add_level add_competency add_competency_under add_topic
    add_topic_under nodes_by_id add_nodes values insert lookup for_each select insert_version
    insert_stack insert_block insert_competency insert_level insert_topic insert_audit
    detect_destructive_changes changes change node_change level_changes index_nodes index_document
    index_node project order_by place
seed-detect_destructive_changes_example =
    seed-detect_destructive_changes lib 1 2 false (files "first") (files "next")
      (("backend", first_rubric) ∷ []) (("backend", next_rubric) ∷ []) no_rows "id"
      ("core.python" ∷ []) refl refl ((tt, (refl, (refl, tt))), tt) refl tt
      (ap new_version first_lem) refl
