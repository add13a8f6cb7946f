-- ===== src/Rubric/Removal.antt =====
-- A check of scripts/sync_rubric_to_db.py that finds nothing forbidden: no id has disappeared.
use tech_screen_ai.Prelude.{
  ◌≡◌, refl, sym, ◌∙◌, String, true, false, is_some, List, [], ◌∷◌, ◌++◌, All, arith, select,
  select-append, string_eq, string_eq_iff,
}
use tech_screen_ai.Prelude.Dict.{Dict, lookup}
use tech_screen_ai.Prelude.Sort.{order_by, order_by-All}
use text.Mathlib.Text.{starts_with}
use tech_screen_ai.Rubric.Document.{Documents}
use tech_screen_ai.Rubric.Gate.{
  Projection, index_nodes, is_forbidden, change, changes, detect_destructive_changes, id_before,
}
use tech_screen_ai.Rubric.Mentions.{mentions, index_nodes-mentions, member-new_ids}
use tech_screen_ai.Rubric.Seed.{member, new_ids, disappeared}

append-empty : {A : Type 0} (xs ys : List A) → xs ++ ys ≡ [] → (xs ≡ []) × (ys ≡ [])
append-empty [] ys h = (refl, h)
append-empty (x ∷ xs) ys h = absurd (ground arith)

-- An entry whose id the new index has.
abbrev IsKept : Dict String Projection → String × Projection → Type 0
IsKept new (id, old) = is_some (lookup id new) ≡ true

change-IsKept :
    (new : Dict String Projection) (id : String) (old : Projection)
    → select is_forbidden (change id old (lookup id new)) ≡ []
    → is_some (lookup id new) ≡ true
unfolding change select
change-IsKept new id old h = ground arith

changes-IsKept :
    (new olds : Dict String Projection)
    → select is_forbidden (changes new olds) ≡ []
    → All (IsKept new) olds
unfolding changes
changes-IsKept new [] h = tt
changes-IsKept new ((id, old) ∷ olds) h =
    let parts : (select is_forbidden (change id old (lookup id new)) ≡ [])
        × (select is_forbidden (changes new olds) ≡ []) =
      append-empty _ _
        (sym (select-append is_forbidden (change id old (lookup id new)) (changes new olds)) ∙ h) in
    (change-IsKept new id old parts.0, changes-IsKept new olds parts.1)

IsKept-lookup :
    (new olds : Dict String Projection) (id : String)
    → All (IsKept new) olds
    → is_some (lookup id olds) ≡ true
    → is_some (lookup id new) ≡ true
unfolding lookup
IsKept-lookup new [] id kept h = absurd (ground arith)
IsKept-lookup new ((key, old) ∷ olds) id kept h =
    ground (arith, string_eq_iff key id, kept.0, IsKept-lookup new olds id kept.1)

-- No id of the baseline is missing from payload that the check does not forbid.
pub detect-mentions :
    (baseline current : Documents) (id : String)
    → select is_forbidden (detect_destructive_changes baseline current) ≡ []
    → mentions id baseline ≡ true
    → mentions id current ≡ true
unfolding detect_destructive_changes
detect-mentions baseline current id h there =
    sym (index_nodes-mentions id current)
    ∙ IsKept-lookup (index_nodes current) (index_nodes baseline) id
        (order_by-All id_before (IsKept (index_nodes current)) (index_nodes baseline)
          (changes-IsKept (index_nodes current) (order_by id_before (index_nodes baseline)) h))
        (index_nodes-mentions id baseline ∙ there)

-- A name that the import compares with the payload's ids, and that the baseline has.
abbrev pub IsNameOf : Documents → String → Type 0
IsNameOf docs name = (mentions name docs ≡ true) × (starts_with name "block." ≡ false)

disappeared-none :
    (prior ids : List String)
    → All (λ name. member name ids ≡ true) prior
    → disappeared prior ids ≡ []
unfolding disappeared select
disappeared-none [] ids h = refl
disappeared-none (name ∷ prior) ids (here, rest) = rw here (disappeared-none prior ids rest)

-- So nothing has disappeared for the import, if its names are the baseline's.
pub disappeared-checked :
    (baseline current : Documents) (prior : List String)
    → select is_forbidden (detect_destructive_changes baseline current) ≡ []
    → All (IsNameOf baseline) prior
    → disappeared prior (new_ids current) ≡ []
disappeared-checked baseline current prior h names =
    disappeared-none prior (new_ids current) (found prior names)
  where
    found :
        (names : List String)
        → All (IsNameOf baseline) names
        → All (λ name. member name (new_ids current) ≡ true) names
    found [] g = tt
    found (name ∷ names) ((there, not_block), rest) = (
      member-new_ids name not_block current ∙ detect-mentions baseline current name h there,
      found names rest,
    )
