-- ===== src/Rubric/Gate.antt =====
-- The check of scripts/sync_rubric_to_db.py: the changes between two versions of the rubric's files
-- that are refused, and those that need a citation. Its messages are left out.
use Prim.Native.Char.{Char}
use Prim.Native.String.{String, compare}
use tech_screen_ai.Prelude.{
  ℕ, zero, suc, Bool, true, false, not, ◌&&◌, ◌||◌, Option, none, some, List, [], ◌∷◌, ◌++◌, leb,
  nat_eq, nat_eq_iff, if◌then◌else◌, select, for_each, Key, ◌==◌, string_eq,
}
use tech_screen_ai.Prelude.Dict.{Dict, lookup, insert}
use tech_screen_ai.Prelude.Sort.{order_by}
use text.Mathlib.Text.{starts_with, is_le}
use tech_screen_ai.Rubric.Document.{LevelEntry, Node, Document, Documents}

pub data Severity : Type 0 where
  forbidden destructive : Severity

pub data Kind : Type 0 where
  node_removed node_retired node_unretired level_removed level_retyped : Kind

-- `id` and `rank` are what `detail` says in words.
pub record Finding : Type 0 where
  pub severity : Severity
  pub kind : Kind
  pub id : String
  pub rank : Option ℕ

instance abbrev pub rank_eq : Key ℕ
rank_eq = record { is_same = nat_eq; is_same_iff = nat_eq_iff }

-- `_Node`
pub record Projection : Type 0 where
  pub retired : Bool
  pub levels : Dict ℕ String

unfoldable pub add_level : LevelEntry → Dict ℕ String → Dict ℕ String
add_level entry levels = insert entry.level entry.descriptor_en levels

unfoldable pub project : Bool → Node → Projection
project stack_retired node = record {
  retired = stack_retired || node.retired;
  levels = for_each add_level node.levels [];
}

unfoldable pub index_node : Bool → Node → Dict String Projection → Dict String Projection
index_node stack_retired node index = insert node.id (project stack_retired node) index

unfoldable pub index_document : String × Document → Dict String Projection → Dict String Projection
index_document (name, doc) index = for_each (index_node doc.retired) doc.nodes index

unfoldable pub index_nodes : Documents → Dict String Projection
index_nodes docs = for_each index_document docs []

abbrev pub retyped : String → ℕ → Bool → List Finding
retyped id rank true = []
retyped id rank false =
    record { severity = Severity.destructive; kind = Kind.level_retyped; id = id; rank = some rank }
    ∷ []

unfoldable pub level_change : String → ℕ → String → Option String → List Finding
level_change id rank old none =
    record { severity = Severity.destructive; kind = Kind.level_removed; id = id; rank = some rank }
    ∷ []
level_change id rank old (some new) = retyped id rank (new == old)

unfoldable pub level_changes : String → Dict ℕ String → Dict ℕ String → List Finding
level_changes id new [] = []
level_changes id new ((rank, old) ∷ levels) =
    level_change id rank old (lookup rank new) ++ level_changes id new levels

abbrev pub rank_before : ℕ × String → ℕ × String → Bool
rank_before (a, _) (b, _) = leb a b

-- The findings of a node that is retired before, or after, or both, or neither.
unfoldable pub node_change : String → Projection → Projection → Bool → Bool → List Finding
node_change id old new false true =
    record { severity = Severity.destructive; kind = Kind.node_retired; id = id; rank = none } ∷ []
node_change id old new true false =
    record { severity = Severity.destructive; kind = Kind.node_unretired; id = id; rank = none }
    ∷ []
node_change id old new true true = []
node_change id old new false false = level_changes id new.levels (order_by rank_before old.levels)

unfoldable pub change : String → Projection → Option Projection → List Finding
change id old none =
    record { severity = Severity.forbidden; kind = Kind.node_removed; id = id; rank = none } ∷ []
change id old (some new) = node_change id old new old.retired new.retired

unfoldable pub changes : Dict String Projection → Dict String Projection → List Finding
changes new [] = []
changes new ((id, old) ∷ rest) = change id old (lookup id new) ++ changes new rest

abbrev pub id_before : String × Projection → String × Projection → Bool
id_before (a, _) (b, _) = is_le (compare a b)

unfoldable pub detect_destructive_changes : Documents → Documents → List Finding
detect_destructive_changes baseline current =
    changes (index_nodes current) (order_by id_before (index_nodes baseline))

abbrev pub is_forbidden : Finding → Bool
is_forbidden finding = elim finding.severity [
  | Severity.forbidden ↦ true
  | Severity.destructive ↦ false
]

abbrev pub is_destructive : Finding → Bool
is_destructive finding = not (is_forbidden finding)

-- `\w` and `\d` of Python's `re`.
pub record CharClasses : Type 0 where
  pub is_word : Char → Bool
  pub is_digit : Char → Bool

module _ (classes : CharClasses) where
  abbrev pub starts_word : String → Bool
  starts_word String.[] = false
  starts_word (String.◌∷◌ c s) = classes.is_word c

  -- As many digits as said, and then `\b`.
  abbrev pub has_digits : ℕ → String → Bool
  has_digits zero s = not (starts_word s)
  has_digits (suc n) String.[] = false
  has_digits (suc n) (String.◌∷◌ c s) = classes.is_digit c && has_digits n s

  abbrev pub skip : ℕ → String → String
  skip zero s = s
  skip (suc n) String.[] = ""
  skip (suc n) (String.◌∷◌ c s) = skip n s

  -- A match of `\bADR-\d{3}\b` here or later; `in_word` is of the character before.
  unfoldable pub search : Bool → String → Bool
  search in_word String.[] = false
  search in_word (String.◌∷◌ c s) =
      (not in_word
        && (starts_with (String.◌∷◌ c s) "ADR-" && has_digits 3 (skip 4 (String.◌∷◌ c s))))
      || search (classes.is_word c) s

  unfoldable pub has_adr_citation : String → Bool
  has_adr_citation s = search false s

  unfoldable pub exit_code : List Finding → List Finding → String → ℕ
  exit_code (f ∷ fs) gs text = 2
  exit_code [] [] text = 0
  exit_code [] (g ∷ gs) text = if has_adr_citation text then 0 else 1

  -- `_cmd_check`; the text is "" where there is no file of it, a directory is `none` where it is
  -- missing.
  unfoldable pub check : Option Documents → Option Documents → String → ℕ
  check none current text = 2
  check (some baseline) none text = 2
  check (some baseline) (some current) text =
      let findings : List Finding = detect_destructive_changes baseline current in
      exit_code (select is_forbidden findings) (select is_destructive findings) text
