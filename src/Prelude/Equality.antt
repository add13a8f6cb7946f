-- ===== src/Prelude/Equality.antt =====
-- Python's `==` on the types that are keys: an interface with its law, and the instances.
use Prim.Native.String.{String}
use mathlib.Core.Path.{◌≡◌}
use mathlib.Core.Logic.{◌↔◌}
use mathlib.Core.Bool.{Bool, true}
use text.Mathlib.Text
use text.Mathlib.TextEquality

-- A type whose values may be dictionary keys.
pub record Key {κ} (K : Type κ) : Type κ where
  pub is_same : K → K → Bool
  pub is_same_iff : (j k : K) → (is_same j k ≡ true) ↔ (j ≡ k)

instance abbrev pub string_eq : Key String
string_eq = record { is_same_iff = TextEquality.eq_iff; is_same = Text.◌==◌ }

infix 50 ◌==◌
abbrev pub ◌==◌ {κ} : {K : Type κ} ⦃key : Key K⦄ (j k : K) → Bool
◌==◌ ⦃key⦄ j k = key.is_same j k

pub string_eq_iff : (a b : String) → ((a == b) ≡ true) ↔ (a ≡ b)
string_eq_iff a b = TextEquality.eq_iff a b
