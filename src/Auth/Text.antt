-- ===== src/Auth/Text.antt =====
-- Python's operations on texts that app/backend/services/auth.py and
-- infra/functions/auth_claims/roles.py use.
use Prim.Native.Char.{Char}
use Prim.Native.String.{◌++◌ as append}
use text.Mathlib.TextLemmas.{nil-append, cons-append}
use tech_screen_ai.Prelude.{
  String, Bool, true, false, ◌||◌, ◌≡◌, ap, sym, ◌∙◌, arith, if◌then◌else◌, ◌==◌, string_eq,
  string_eq_iff,
}

-- `str.lower` and `str.strip`, which work on every character of Unicode.
pub record Texts : Type 0 where
  pub lower : String → String
  pub strip : String → String

abbrev pub is_at : Char → Bool
is_at c = String.◌∷◌ c "" == "@"

-- "@" in s
unfoldable pub has_at : String → Bool
has_at String.[] = false
has_at (String.◌∷◌ c s) = is_at c || has_at s

-- s.rpartition("@")[2]
unfoldable pub after_last_at : String → String
after_last_at String.[] = ""
after_last_at (String.◌∷◌ c s) =
    let rest = after_last_at s in if has_at s then rest else if is_at c then s else String.◌∷◌ c s

-- s.endswith(end)
unfoldable pub ends_with : String → String → Bool
ends_with String.[] end = "" == end
ends_with (String.◌∷◌ c s) end = String.◌∷◌ c s == end || ends_with s end

at_head : (c : Char) (s : String) → is_at c ≡ true → (String.◌∷◌ c s == append "@" s) ≡ true
at_head c s h = (string_eq_iff (String.◌∷◌ c s) (append "@" s)).1 (
    ap (λ rest. String.◌∷◌ c rest) (sym (nil-append s))
    ∙ (sym (cons-append c "" s)
        ∙ ap (λ head. append head s) ((string_eq_iff (String.◌∷◌ c "") "@").0 h)))

pub ends_with-after_last_at :
    (s : String) → has_at s ≡ true → ends_with s (append "@" (after_last_at s)) ≡ true
unfolding has_at after_last_at ends_with
ends_with-after_last_at String.[] h = absurd (ground arith)
ends_with-after_last_at (String.◌∷◌ c s) h = ground (arith, at_head c s, ends_with-after_last_at s)

-- `in STAFF_ROLES`
abbrev pub is_staff : String → Bool
is_staff role = role == "admin" || (role == "recruiter" || role == "reviewer")
