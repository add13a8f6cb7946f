-- ===== src/Auth/Verifier.antt =====
-- `IdTokenVerifier` of app/backend/services/auth.py: the store of the signing certificates, and
-- `verify`. The lock makes the calls of `_get_certs` follow each other.
use Prim.Native.String.{◌++◌ as append}
use tech_screen_ai.Prelude.{
  ℕ, ◌+◌, String, Bool, true, false, not, ◌&&◌, ◌||◌, Option, none, some, is_some, ltb, leb,
  if◌then◌else◌, ◌==◌, string_eq,
}
use tech_screen_ai.Prelude.Dict.{Dict, lookup}
use tech_screen_ai.Json.{Json, Fields, get}
use tech_screen_ai.Auth.Claims.{Checked, check_claims}
use tech_screen_ai.Auth.Text.{Texts}

-- From a `kid` to its certificate.
abbrev pub Certs : Type 0
Certs = Dict String String

-- `_certs`, `_certs_deadline`, `_forced_ok_after`
pub record CertStore : Type 0 where
  pub certs : Option Certs
  pub deadline : ℕ
  pub forced_ok_after : ℕ

abbrev pub no_certs : CertStore
no_certs = record { certs = none; deadline = 0; forced_ok_after = 0 }

-- What the outside does in a call of `_get_certs`: the clock at its start, and after the fetch, twice;
-- and what the fetch returns, `none` where it raises.
pub record Refresh : Type 0 where
  pub start : ℕ
  pub fetched_at : ℕ
  pub forced_at : ℕ
  pub fetched : Option Certs

-- `decode_header` and `decode` are google-auth's, `none` where they raise `ValueError`.
pub record Verifier : Type 0 where
  pub project_id : String
  pub allowed_domain : String
  pub certs_ttl : ℕ
  pub forced_cooldown : ℕ
  pub texts : Texts
  pub decode_header : String → Option Fields
  pub decode : String → Certs → String → Option Fields

-- `__init__`: `none` is `ValueError`.
unfoldable pub new_verifier : Verifier → Option Verifier
new_verifier given =
    if given.project_id == "" || given.allowed_domain == ""
    then none
    else some (record given { allowed_domain = given.texts.lower given.allowed_domain })

-- What `verify` ends in; `fetch_failed` is the exception of the fetch.
pub data Verified : Type 0 where
  checked : Checked → Verified
  malformed_token : Verified
  failed_checks : Verified
  fetch_failed : Verified

abbrev pub kid_of : Option Json → Option String
kid_of (some (Json.str kid)) = some kid
kid_of _ = none

abbrev pub is_known : Option String → Certs → Bool
is_known none certs = true
is_known (some kid) certs = is_some (lookup kid certs)

module _ (verifier : Verifier) where
  -- Whether a refresh that is asked for is let through.
  unfoldable pub may_force : Bool → Refresh → CertStore → Bool
  may_force force_refresh attempt store =
      force_refresh && not (ltb attempt.start store.forced_ok_after)

  abbrev pub is_stale : Refresh → CertStore → Bool
  is_stale attempt store = not (is_some store.certs) || leb store.deadline attempt.start

  unfoldable pub refetch : Bool → Refresh → Option Certs → CertStore → Option Certs × CertStore
  refetch forced attempt none store = (none, store)
  refetch forced attempt (some certs) store = (
    some certs,
    record {
      certs = some certs;
      deadline = attempt.fetched_at + verifier.certs_ttl;
      forced_ok_after =
          if forced then attempt.forced_at + verifier.forced_cooldown else store.forced_ok_after;
    },
  )

  -- `none` is the exception of the fetch.
  unfoldable pub get_certs : Bool → Refresh → CertStore → Option Certs × CertStore
  get_certs force_refresh attempt store =
      let forced : Bool = may_force force_refresh attempt store in
      if forced || is_stale attempt store
      then refetch forced attempt attempt.fetched store
      else (store.certs, store)

  unfoldable pub verified_claims : Option Fields → Verified
  verified_claims none = Verified.failed_checks
  verified_claims (some claims) = Verified.checked (
      check_claims verifier.texts (append "https://securetoken.google.com/" verifier.project_id)
        verifier.allowed_domain claims)

  unfoldable pub with_certs : String → Option Certs × CertStore → Verified × CertStore
  with_certs token (none, store) = (Verified.fetch_failed, store)
  with_certs token (some certs, store) =
      (verified_claims (verifier.decode token certs verifier.project_id), store)

  -- From the certificates that the first call gives, and the header.
  unfoldable pub with_header :
      String → Refresh → Option Certs → CertStore → Option Fields → Verified × CertStore
  with_header token again none store header = (Verified.fetch_failed, store)
  with_header token again (some certs) store none = (Verified.malformed_token, store)
  with_header token again (some certs) store (some header) =
      if is_known (kid_of (get "kid" header)) certs
      then with_certs token (some certs, store)
      else with_certs token (get_certs true again store)

  unfoldable pub verify : String → Refresh → Refresh → CertStore → Verified × CertStore
  verify token first again store =
      let got : Option Certs × CertStore = get_certs false first store in
      with_header token again got.0 got.1 (verifier.decode_header token)
