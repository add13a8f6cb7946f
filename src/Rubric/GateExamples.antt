-- ===== src/Rubric/GateExamples.antt =====
-- Tests of the check of scripts/sync_rubric_to_db.py.
use tech_screen_ai.Prelude.{
  ◌≡◌, refl, String, Bool, ◌||◌, false, Option, some, [], ◌∷◌, ◌==◌, string_eq, select, for_each,
}
use Prim.Native.Char.{Char}
use tech_screen_ai.Rubric.Document.{Document, Documents}
use tech_screen_ai.Rubric.Gate.{
  check, exit_code, search, level_change, CharClasses, Finding, Severity, Kind, level_changes,
  changes, change, node_change, index_nodes, index_document, index_node, project,
  detect_destructive_changes, has_adr_citation,
}
use tech_screen_ai.Prelude.Dict.{insert, lookup}
use tech_screen_ai.Prelude.Sort.{order_by, place}
use tech_screen_ai.Rubric.Examples.{first_rubric, next_rubric, lost_rubric}

-- `\w` and `\d` on the texts below, by their characters.
abbrev one_of : String → Char → Bool
one_of String.[] c = false
one_of (String.◌∷◌ d s) c = (String.◌∷◌ c "" == String.◌∷◌ d "") || one_of s c

abbrev classes : CharClasses
classes = record { is_word = one_of "ABDRabc0123456789"; is_digit = one_of "0123456789" }

abbrev docs_of : Document → Option Documents
docs_of doc = some (("backend", doc) ∷ [])

-- The check refuses a lost id whatever is cited, and wants a citation for a retired one.
check-lost : check classes (docs_of first_rubric) (docs_of lost_rubric) "ADR-018" ≡ 2
unfolding check exit_code has_adr_citation search detect_destructive_changes changes change
    node_change level_changes level_change index_nodes index_document index_node project order_by
    place lookup insert for_each select tech_screen_ai.Rubric.Gate.add_level
check-lost = refl

check-retired : check classes (docs_of first_rubric) (docs_of next_rubric) "BADR-018, ADR-0180" ≡ 1
unfolding check exit_code has_adr_citation search detect_destructive_changes changes change
    node_change level_changes level_change index_nodes index_document index_node project order_by
    place lookup insert for_each select tech_screen_ai.Rubric.Gate.add_level
check-retired = refl

check-cited : check classes (docs_of first_rubric) (docs_of next_rubric) "(ADR-018)" ≡ 0
unfolding check exit_code has_adr_citation search detect_destructive_changes changes change
    node_change level_changes level_change index_nodes index_document index_node project order_by
    place lookup insert for_each select tech_screen_ai.Rubric.Gate.add_level
check-cited = refl

check-same : check classes (docs_of first_rubric) (docs_of first_rubric) "" ≡ 0
unfolding check exit_code has_adr_citation search detect_destructive_changes changes change
    node_change level_changes level_change index_nodes index_document index_node project order_by
    place lookup insert for_each select tech_screen_ai.Rubric.Gate.add_level
check-same = refl
