-- ===== src/Auth/Claims.antt =====
-- The check of a token's claims: `_check_claims` of app/backend/services/auth.py.
use Prim.Native.String.{◌++◌ as append}
use tech_screen_ai.Prelude.{
  String, Bool, true, false, not, Option, none, some, if◌then◌else◌, ◌==◌, string_eq,
}
use tech_screen_ai.Json.{Json, Fields, get}
use tech_screen_ai.Auth.Text.{Texts, has_at, ends_with, is_staff}

pub record VerifiedIdentity : Type 0 where
  pub sub : String
  pub email : String
  pub role : String

-- `TokenVerificationError` and `MissingRoleClaimError` with their messages.
pub data Checked : Type 0 where
  identity : VerifiedIdentity → Checked
  refused : String → Checked
  no_role : String → Checked

-- claim != text
abbrev pub is_text : Option Json → String → Bool
is_text (some (Json.str value)) text = value == text
is_text _ text = false

abbrev pub is_true : Option Json → Bool
is_true (some (Json.bool true)) = true
is_true _ = false

abbrev pub or_refuse : Bool → String → Checked → Checked
or_refuse true reason next = next
or_refuse false reason next = Checked.refused reason

abbrev pub check_role : String → String → Option Json → Checked
check_role sub email none = Checked.no_role "token carries no role claim"
check_role sub email (some Json.null) = Checked.no_role "token carries no role claim"
check_role sub email (some (Json.str role)) =
    if is_staff role
    then Checked.identity (record { sub = sub; email = email; role = role })
    else Checked.no_role "token role claim is not a recognised staff role"
check_role sub email (some _) = Checked.no_role "token role claim is not a recognised staff role"

-- `issuer` and `allowed_domain` are `self._issuer` and `self._allowed_domain`.
module _ (texts : Texts) (issuer allowed_domain : String) where
  unfoldable pub check_domain : String → String → Fields → Checked
  check_domain sub email claims =
      or_refuse (is_true (get "email_verified" claims)) "token email is not verified" (
        or_refuse (is_text (get "hd" claims) allowed_domain)
          "token is not from the allowed hosted domain"
          (or_refuse (ends_with (texts.lower email) (append "@" allowed_domain))
            "token email is outside the allowed hosted domain"
            (check_role sub email (get "role" claims))))

  abbrev pub check_email : String → Option Json → Fields → Checked
  check_email sub (some (Json.str email)) claims =
      or_refuse (has_at email) "token has no usable email claim" (check_domain sub email claims)
  check_email sub _ claims = Checked.refused "token has no usable email claim"

  abbrev pub check_subject : Option Json → Fields → Checked
  check_subject (some (Json.str sub)) claims =
      or_refuse (not (sub == "")) "token has no subject"
        (check_email sub (get "email" claims) claims)
  check_subject _ claims = Checked.refused "token has no subject"

  unfoldable pub check_claims : Fields → Checked
  check_claims claims =
      or_refuse (is_text (get "iss" claims) issuer) "unexpected token issuer"
        (check_subject (get "sub" claims) claims)
