-- ===== src/Auth/Staff.antt =====
-- The roles of a mapping that infra/functions/auth_claims/roles.py loads.
use tech_screen_ai.Prelude.{
  String, ◌≡◌, refl, Bool, true, false, ◌&&◌, Option, none, some, [], All, arith, if◌then◌else◌,
  string_eq,
}
use mathlib.Core.Path.{subst}
use tech_screen_ai.Prelude.Dict.{Dict, insert, All-insert}
use tech_screen_ai.Json.{Json, Fields, get}
use tech_screen_ai.Auth.Roles.{
  RoleMapping, normalize, load_roles, load_mapping, with_domain, with_roles, is_domain, mapping_of,
}
use tech_screen_ai.Auth.Text.{Texts, has_at, is_staff}

abbrev pub IsStaff : String × String → Type 0
IsStaff (email, role) = is_staff role ≡ true

-- The roles of a mapping that loads are staff roles.
module _ (texts : Texts) where
  load_roles-IsStaff :
      (entries : Fields) (roles result : Dict String String)
      → All IsStaff roles
      → load_roles texts roles entries ≡ some result
      → All IsStaff result
  unfolding load_roles
  load_roles-IsStaff Fields.end roles result h e = subst (All IsStaff) (ground (arith, e)) h
  load_roles-IsStaff (Fields.field email (Json.str role) rest) roles result h e =
      (elim (has_at email && is_staff role)
          as (λ b.
            has_at email && is_staff role ≡ b
            → (if b
                then load_roles texts (insert (normalize texts email) role roles) rest
                else none)
              ≡ some result
            → All IsStaff result) [
              | true ↦ λ staff loaded.
                  load_roles-IsStaff rest (insert (normalize texts email) role roles) result
                    (All-insert IsStaff (normalize texts email) role roles (ground (arith, staff))
                      h)
                    loaded
              | false ↦ λ _ loaded. absurd (ground (arith, loaded))
            ])
        refl e
  load_roles-IsStaff (Fields.field email Json.null rest) roles result h e =
      absurd (ground (arith, e))
  load_roles-IsStaff (Fields.field email (Json.bool b) rest) roles result h e =
      absurd (ground (arith, e))
  load_roles-IsStaff (Fields.field email (Json.int n) rest) roles result h e =
      absurd (ground (arith, e))
  load_roles-IsStaff (Fields.field email (Json.float x) rest) roles result h e =
      absurd (ground (arith, e))
  load_roles-IsStaff (Fields.field email (Json.arr xs) rest) roles result h e =
      absurd (ground (arith, e))
  load_roles-IsStaff (Fields.field email (Json.obj fs) rest) roles result h e =
      absurd (ground (arith, e))

  with_domain-IsStaff :
      (domain : String) (entries : Fields) (mapping : RoleMapping)
      → with_domain texts domain (load_roles texts [] entries) ≡ some mapping
      → All IsStaff mapping.roles
  with_domain-IsStaff domain entries mapping e =
      (elim (load_roles texts [] entries)
          as (λ loaded.
            load_roles texts [] entries ≡ loaded
            → with_domain texts domain loaded ≡ some mapping
            → All IsStaff mapping.roles) [
              | none ↦ λ _ h. absurd (ground (arith, h))
              | some roles ↦ λ loaded h.
                  subst (All IsStaff) {y = mapping.roles} (ground (arith, h))
                    (load_roles-IsStaff entries [] roles tt loaded)
            ])
        refl e

  pub load_mapping-IsStaff :
      (loaded : Json) (mapping : RoleMapping)
      → load_mapping texts loaded ≡ some mapping
      → All IsStaff mapping.roles
  unfolding load_mapping
  load_mapping-IsStaff (Json.obj fields) mapping e =
      from (get "domain" fields) (get "roles" fields) e
    where
      from :
          (domain roles : Option Json)
          → mapping_of texts domain roles ≡ some mapping
          → All IsStaff mapping.roles
      from (some (Json.str domain)) roles h = given (is_domain texts domain) roles h
        where
          given :
              (b : Bool) (roles : Option Json)
              → (if b then with_roles texts domain roles else none) ≡ some mapping
              → All IsStaff mapping.roles
          given true (some (Json.obj entries)) g = with_domain-IsStaff domain entries mapping g
          given b roles g = absurd (ground (arith, g))
      from domain roles h = absurd (ground (arith, h))
  load_mapping-IsStaff _ mapping e = absurd (ground (arith, e))
