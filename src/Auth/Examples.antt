-- ===== src/Auth/Examples.antt =====
-- Runs of the theorems on one account, and tests of the verifier. The texts are in lower case and
-- without spaces, so `lower` and `strip` leave them.
use tech_screen_ai.Prelude.{
  ℕ, ◌≡◌, ◌≢◌, ◌≤◌, ◌+◌, ◌*◌, refl, String, true, none, some, [], ◌∷◌, arith, string_eq,
  string_eq_iff,
}
use tech_screen_ai.Prelude.Dict.{lookup, insert}
use tech_screen_ai.Json.{Json, Fields, get}
use tech_screen_ai.Auth.Claims.{VerifiedIdentity, Checked, check_claims, check_domain}
use tech_screen_ai.Auth.Roles.{RoleMapping, load_roles, load_mapping, decide, decide_verified}
use tech_screen_ai.Auth.SignIn.{check_claims-decide}
use tech_screen_ai.Auth.Spacing.{Calls, forced_fetches, forced_fetches-bound}
use tech_screen_ai.Auth.Text.{Texts, has_at, after_last_at, ends_with}
use tech_screen_ai.Auth.Verifier.{
  Certs, no_certs, Refresh, Verifier, Verified, may_force, refetch, get_certs, verified_claims,
  with_certs, with_header, verify,
}

abbrev texts : Texts
texts = record { lower = λ s. s; strip = λ s. s }

abbrev loaded : Json
loaded = Json.obj (
    Fields.field "domain" (Json.str "n-ix.com") (
      Fields.field "roles" (Json.obj (Fields.field "ann@n-ix.com" (Json.str "admin") Fields.end))
        Fields.end))

abbrev mapping : RoleMapping
mapping = record { domain = "n-ix.com"; roles = ("ann@n-ix.com", "admin") ∷ [] }

abbrev claims : Fields
claims = Fields.field "iss" (Json.str "https://securetoken.google.com/project") (
    Fields.field "sub" (Json.str "u1") (
      Fields.field "email" (Json.str "ann@n-ix.com") (
        Fields.field "email_verified" (Json.bool true) (
          Fields.field "hd" (Json.str "n-ix.com")
            (Fields.field "role" (Json.str "admin") Fields.end)))))

abbrev ann : VerifiedIdentity
ann = record { sub = "u1"; email = "ann@n-ix.com"; role = "admin" }

sub-named : ◌≢◌ {A = String} "u1" ""
sub-named = ground (arith, string_eq_iff "u1" "")

check_claims-decide_example :
    check_claims texts "https://securetoken.google.com/project" "n-ix.com" claims
    ≡ Checked.identity ann
unfolding load_mapping load_roles decide decide_verified has_at after_last_at get lookup insert
check_claims-decide_example =
    check_claims-decide texts "https://securetoken.google.com/project" loaded mapping "u1"
      "ann@n-ix.com" (some (Json.bool true)) claims (λ s. refl) refl refl sub-named
      (refl, (refl, (refl, (refl, (refl, refl))))) refl

abbrev certs : Certs
certs = ("k1", "pem") ∷ []

-- A header is the token, and a token has the claims if its key is known.
abbrev verifier : Verifier
verifier = record {
  project_id = "project";
  allowed_domain = "n-ix.com";
  certs_ttl = 3600;
  forced_cooldown = 30;
  texts = texts;
  decode_header = λ token. some (Fields.field "kid" (Json.str token) Fields.end);
  decode =
      λ token found audience. elim (lookup token found) [ none ↦ none | some pem ↦ some claims ];
}

abbrev fetch_at : ℕ → Refresh
fetch_at time = record { start = time; fetched_at = time; forced_at = time; fetched = some certs }

known_lem :
    (verify verifier "k1" (fetch_at 100) (fetch_at 100) no_certs).0
    ≡ Verified.checked (Checked.identity ann)
unfolding verify with_header with_certs verified_claims get_certs refetch may_force check_claims
    check_domain has_at ends_with get lookup
known_lem = refl

-- A key that is not known is looked for once more, and then not for the time of the cooldown.
spray_lem : (verify verifier "k2" (fetch_at 100) (fetch_at 100) no_certs) ≡ (
  Verified.failed_checks,
  record { certs = some certs; deadline = 3700; forced_ok_after = 130 },
)
unfolding verify with_header with_certs verified_claims get_certs refetch may_force get lookup
spray_lem = refl

abbrev calls : Calls
calls = (true, fetch_at 100) ∷ (true, fetch_at 110) ∷ (true, fetch_at 130) ∷ []

calls_lem : forced_fetches verifier calls no_certs ≡ 2
unfolding forced_fetches get_certs refetch may_force
calls_lem = refl

forced_fetches-bound_example : forced_fetches verifier calls no_certs * 30 + 100 ≤ 130 + 30
forced_fetches-bound_example =
    forced_fetches-bound verifier calls no_certs 100 130
      (
        (omega arith, (omega arith, omega arith)),
        (
          (omega arith, (omega arith, omega arith)),
          ((omega arith, (omega arith, omega arith)), tt),
        ),
      )
      (omega arith)
