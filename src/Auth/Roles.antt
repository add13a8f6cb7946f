-- ===== src/Auth/Roles.antt =====
-- The gate of a sign-in: infra/functions/auth_claims/roles.py.
use tech_screen_ai.Prelude.{
  String, Bool, true, false, not, ◌||◌, ◌&&◌, Option, none, some, [], ◌∷◌, if◌then◌else◌, ◌==◌,
  string_eq,
}
use tech_screen_ai.Prelude.Dict.{Dict, lookup, insert}
use tech_screen_ai.Json.{Json, Fields, get}
use tech_screen_ai.Auth.Text.{Texts, has_at, after_last_at, is_staff}

-- `roles`: the lower-cased address, and its role.
pub record RoleMapping : Type 0 where
  pub domain : String
  pub roles : Dict String String

pub record Decision : Type 0 where
  pub allowed : Bool
  pub reason : Option String
  pub claims : Dict String String

abbrev pub blocked : String → Decision
blocked reason = record { allowed = false; reason = some reason; claims = [] }

-- {"hd": mapping.domain}, with the role if there is one.
abbrev pub injected : String → Option String → Dict String String
injected domain none = ("hd", domain) ∷ []
injected domain (some role) = ("hd", domain) ∷ ("role", role) ∷ []

module _ (texts : Texts) where
  abbrev pub normalize : String → String
  normalize email = texts.lower (texts.strip email)

  -- The loop of `load_mapping` over the entries; `none` is `RoleMappingError`.
  unfoldable pub load_roles : Dict String String → Fields → Option (Dict String String)
  load_roles roles Fields.end = some roles
  load_roles roles (Fields.field email (Json.str role) rest) =
      let loaded = load_roles (insert (normalize email) role roles) rest in
      if has_at email && is_staff role then loaded else none
  load_roles roles (Fields.field email value rest) = none

  abbrev pub with_domain : String → Option (Dict String String) → Option RoleMapping
  with_domain domain none = none
  with_domain domain (some roles) = some (record { domain = normalize domain; roles = roles })

  abbrev pub with_roles : String → Option Json → Option RoleMapping
  with_roles domain (some (Json.obj entries)) = with_domain domain (load_roles [] entries)
  with_roles domain _ = none

  -- A domain that is a bare hostname.
  abbrev pub is_domain : String → Bool
  is_domain domain = not (texts.strip domain == "" || has_at domain)

  abbrev pub mapping_of : Option Json → Option Json → Option RoleMapping
  mapping_of (some (Json.str domain)) roles =
      if is_domain domain then with_roles domain roles else none
  mapping_of _ roles = none

  -- `load_mapping`, of what `yaml.safe_load` has read.
  unfoldable pub load_mapping : Json → Option RoleMapping
  load_mapping (Json.obj loaded) = mapping_of (get "domain" loaded) (get "roles" loaded)
  load_mapping _ = none

  -- An address that has been found usable and verified.
  unfoldable pub decide_verified : String → RoleMapping → Decision
  decide_verified email mapping =
      if after_last_at (normalize email) == mapping.domain
      then record {
        allowed = true;
        reason = none;
        claims = injected mapping.domain (lookup (normalize email) mapping.roles);
      }
      else blocked "account is outside the allowed hosted domain"

  abbrev pub if_verified : Option Json → Decision → Decision
  if_verified (some (Json.bool true)) decision = decision
  if_verified _ decision = blocked "account email is not verified"

  unfoldable pub decide : Option Json → Option Json → RoleMapping → Decision
  decide (some (Json.str email)) verified mapping =
      if has_at email
      then if_verified verified (decide_verified email mapping)
      else blocked "account has no usable email"
  decide _ verified mapping = blocked "account has no usable email"
