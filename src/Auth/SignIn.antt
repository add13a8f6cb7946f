-- ===== src/Auth/SignIn.antt =====
-- From the decision of infra/functions/auth_claims/roles.py to the check of the token that it leads to,
-- in app/backend/services/auth.py.
use Prim.Native.String.{◌++◌ as append}
use tech_screen_ai.Prelude.{
  String, ◌≡◌, ◌≢◌, refl, sym, ap, ◌∙◌, true, Option, none, some, All, arith, string_eq,
  string_eq_iff,
}
use mathlib.Core.Path.{subst}
use tech_screen_ai.Prelude.Dict.{lookup, All-lookup}
use tech_screen_ai.Json.{Json, Fields, get}
use tech_screen_ai.Auth.Claims.{Checked, check_role, check_domain, check_claims}
use tech_screen_ai.Auth.Roles.{
  RoleMapping, Decision, injected, normalize, load_mapping, decide_verified, decide,
}
use tech_screen_ai.Auth.Text.{Texts, has_at, after_last_at, ends_with, ends_with-after_last_at}
use tech_screen_ai.Auth.Staff.{IsStaff, load_mapping-IsStaff}

-- Lower-casing keeps each "@" and makes none.
abbrev pub KeepsAt : Texts → Type 0
KeepsAt texts = (s : String) → has_at (texts.lower s) ≡ has_at s

abbrev pub as_claim : Option String → Option Json
as_claim none = none
as_claim (some value) = some (Json.str value)

-- The claims of a token that Identity Platform mints for the account, with what the decision injects.
abbrev pub IsMinted : Fields → String → String → String → Option Json → Decision → Type 0
IsMinted claims issuer sub email verified decision =
    (get "iss" claims ≡ some (Json.str issuer))
    × ((get "sub" claims ≡ some (Json.str sub))
        × ((get "email" claims ≡ some (Json.str email))
            × ((get "email_verified" claims ≡ verified)
                × ((get "hd" claims ≡ as_claim (lookup "hd" decision.claims))
                    × (get "role" claims ≡ as_claim (lookup "role" decision.claims))))))

-- What the check of the token comes to, from the role that the mapping has.
abbrev pub outcome : String → String → Option String → Checked
outcome sub email none = Checked.no_role "token carries no role claim"
outcome sub email (some role) = Checked.identity (record { sub = sub; email = email; role = role })

module _ (texts : Texts) (issuer : String) (mapping : RoleMapping)
    (staff : All IsStaff mapping.roles) (keeps : KeepsAt texts) (sub email : String)
    (trimmed : texts.strip email ≡ email) (named : sub ≢ "") where
  check_role-outcome :
      (role : Option String)
      → lookup (normalize texts email) mapping.roles ≡ role
      → check_role sub email (as_claim role) ≡ outcome sub email role
  check_role-outcome none e = refl
  check_role-outcome (some role) e =
      ground (arith, All-lookup IsStaff (normalize texts email) mapping.roles staff e)

  suffix :
      has_at email ≡ true
      → after_last_at (normalize texts email) ≡ mapping.domain
      → ends_with (texts.lower email) (append "@" mapping.domain) ≡ true
  suffix at same =
      subst (λ domain. ends_with (texts.lower email) (append "@" domain) ≡ true)
        (ap (λ e. after_last_at (texts.lower e)) (sym trimmed) ∙ same)
        (ends_with-after_last_at (texts.lower email) (keeps email ∙ at))

  -- A token with the injected claims of an address that is admitted.
  check_domain-outcome :
      (claims : Fields)
      → has_at email ≡ true
      → after_last_at (normalize texts email) ≡ mapping.domain
      → get "email_verified" claims ≡ some (Json.bool true)
      → get "hd" claims ≡ some (Json.str mapping.domain)
      → get "role" claims ≡ as_claim (lookup (normalize texts email) mapping.roles)
      → check_domain texts issuer mapping.domain sub email claims
        ≡ outcome sub email (lookup (normalize texts email) mapping.roles)
  unfolding check_domain
  check_domain-outcome claims at same verified hd role = ground (
    arith,
    verified,
    hd,
    role,
    suffix at same,
    string_eq_iff mapping.domain mapping.domain,
    check_role-outcome (lookup (normalize texts email) mapping.roles) refl,
  )

  -- An address that is admitted is usable, verified, and of the domain.
  decide-allowed :
      (verified : Option Json)
      → (decide texts (some (Json.str email)) verified mapping).allowed ≡ true
      → (has_at email ≡ true)
        × ((verified ≡ some (Json.bool true))
            × ((after_last_at (normalize texts email) ≡ mapping.domain)
                × ((decide texts (some (Json.str email)) verified mapping).claims
                    ≡ injected mapping.domain (lookup (normalize texts email) mapping.roles))))
  unfolding decide decide_verified
  decide-allowed (some (Json.bool true)) h =
      let domain_iff = string_eq_iff (after_last_at (normalize texts email)) mapping.domain in
      (ground (arith, h), (refl, (ground (arith, h, domain_iff), ground (arith, h, domain_iff))))
  decide-allowed verified h = absurd (ground (arith, h))

  injected-hd :
      (role : Option String) → lookup "hd" (injected mapping.domain role) ≡ some mapping.domain
  unfolding lookup
  injected-hd none = refl
  injected-hd (some role) = refl

  injected-role : (role : Option String) → lookup "role" (injected mapping.domain role) ≡ role
  unfolding lookup
  injected-role none = refl
  injected-role (some role) = refl

  check_claims-outcome :
      (verified : Option Json) (claims : Fields)
      → IsMinted claims issuer sub email verified
          (decide texts (some (Json.str email)) verified mapping)
      → (decide texts (some (Json.str email)) verified mapping).allowed ≡ true
      → check_claims texts issuer mapping.domain claims
        ≡ outcome sub email (lookup (normalize texts email) mapping.roles)
  unfolding check_claims
  check_claims-outcome verified claims (iss, (subject, (address, (flag, (hd, role))))) allowed =
      let (at, (is_verified, (same, carried))) = decide-allowed verified allowed in
      ground (
        arith,
        iss,
        subject,
        address,
        at,
        named,
        string_eq_iff issuer issuer,
        string_eq_iff sub "",
        check_domain-outcome claims at same (flag ∙ is_verified)
            (hd
              ∙ ap as_claim (
                  ap (lookup "hd") carried
                  ∙ injected-hd (lookup (normalize texts email) mapping.roles)))
            (role
              ∙ ap as_claim (
                  ap (lookup "role") carried
                  ∙ injected-role (lookup (normalize texts email) mapping.roles))),
      )

-- For an account that the sign-in decision admits under a mapping that loads, a token with its
-- address, its verification flag and the injected claims passes the check of the verifier for the
-- mapping's domain: with the role, which is a staff role, exactly if the mapping has one for the
-- address, and otherwise it is refused for the missing role and nothing else. The address has no
-- surrounding spaces, the subject is not empty, and lower-casing keeps each @.
pub check_claims-decide :
    (texts : Texts) (issuer : String) (loaded : Json) (mapping : RoleMapping) (sub email : String)
    (verified : Option Json) (claims : Fields)
    → KeepsAt texts
    → load_mapping texts loaded ≡ some mapping
    → texts.strip email ≡ email
    → sub ≢ ""
    → IsMinted claims issuer sub email verified
        (decide texts (some (Json.str email)) verified mapping)
    → (decide texts (some (Json.str email)) verified mapping).allowed ≡ true
    → check_claims texts issuer mapping.domain claims
      ≡ outcome sub email (lookup (normalize texts email) mapping.roles)
check_claims-decide texts issuer loaded mapping sub email verified claims keeps loads trimmed named
      minted allowed =
    check_claims-outcome texts issuer mapping (load_mapping-IsStaff texts loaded mapping loads)
      keeps sub email trimmed named verified claims minted allowed
