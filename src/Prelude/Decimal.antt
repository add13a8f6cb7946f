-- ===== src/Prelude/Decimal.antt =====
-- `str(n)` for a natural number, as an f-string prints it, and that it loses nothing.
use Prim.Native.Nat.{ℕ, zero, suc, ◌+◌, ◌-◌, ◌*◌, ◌/◌, ◌%◌, ◌<◌}
use Prim.Native.Char.{Char, code}
use Prim.Native.String.{String, [], ◌∷◌}
use mathlib.Core.Path.{◌≡◌, refl, sym, ap, ◌∙◌}
use mathlib.Core.Logic.{dite, dif_pos, dif_neg}
use mathlib.Core.WellFounded.{Acc}
use native.Mathlib.Decide.{dec_lt}
use native.Mathlib.Bridge.{le_prop}
use native.Mathlib.Omega.{arith}

digit_char : ℕ → Char
digit_char zero = "0"
digit_char (suc zero) = "1"
digit_char (suc (suc zero)) = "2"
digit_char (suc (suc (suc zero))) = "3"
digit_char (suc (suc (suc (suc zero)))) = "4"
digit_char (suc (suc (suc (suc (suc zero))))) = "5"
digit_char (suc (suc (suc (suc (suc (suc zero)))))) = "6"
digit_char (suc (suc (suc (suc (suc (suc (suc zero))))))) = "7"
digit_char (suc (suc (suc (suc (suc (suc (suc (suc zero)))))))) = "8"
digit_char _ = "9"

code-digit_char : (d : ℕ) → d < 10 → code (digit_char d) ≡ 48 + d
unfolding digit_char
code-digit_char zero h = refl
code-digit_char (suc zero) h = refl
code-digit_char (suc (suc zero)) h = refl
code-digit_char (suc (suc (suc zero))) h = refl
code-digit_char (suc (suc (suc (suc zero)))) h = refl
code-digit_char (suc (suc (suc (suc (suc zero))))) h = refl
code-digit_char (suc (suc (suc (suc (suc (suc zero)))))) h = refl
code-digit_char (suc (suc (suc (suc (suc (suc (suc zero))))))) h = refl
code-digit_char (suc (suc (suc (suc (suc (suc (suc (suc zero)))))))) h = refl
code-digit_char (suc (suc (suc (suc (suc (suc (suc (suc (suc zero))))))))) h = refl
code-digit_char (suc (suc (suc (suc (suc (suc (suc (suc (suc (suc d)))))))))) h =
    absurd (omega arith)

-- Every number under a bound can be divided only finitely often.
under : (bound : ℕ) {n : ℕ} → n < bound → Acc ◌<◌ n
under zero h = absurd (omega arith)
under (suc bound) {n} h = Acc.intro n λ m smaller. under bound (omega arith)

abbrev quotient_lt : (n : ℕ) → 9 < n → n / 10 < n
quotient_lt n h = omega arith

emit : (n : ℕ) → Acc ◌<◌ n → String → String
emit n (Acc.intro _ smaller) out =
    dite (dec_lt 9 n)
      (λ h. emit (n / 10) (smaller (n / 10) (quotient_lt n h)) (digit_char (n % 10) ∷ out))
      (λ _. digit_char (n % 10) ∷ out)

unfoldable pub decimal : ℕ → String
unfolding emit under dec_lt digit_char
decimal n = emit n (under (suc n) (omega arith)) []

-- The number that the digits of a text stand for.
value : String → ℕ → ℕ
value [] n = n
value (c ∷ s) n = value s (n * 10 + (code c - 48))

value-digit : (n d : ℕ) (s : String) → d < 10 → value (digit_char d ∷ s) n ≡ value s (n * 10 + d)
unfolding value
value-digit n d s h = ap (λ t. value s (n * 10 + t)) (omega (arith, code-digit_char d h))

value-emit : (n : ℕ) (w : Acc ◌<◌ n) (out : String) → value (emit n w out) 0 ≡ value out n
unfolding emit
value-emit n (Acc.intro _ smaller) out = elim (dec_lt 9 n) [
  | yes h ↦ rw (dif_pos _ le_prop h) (
      value-emit (n / 10) (smaller (n / 10) (quotient_lt n h)) (digit_char (n % 10) ∷ out)
      ∙ value-digit (n / 10) (n % 10) out (omega arith)
      ∙ ap (value out) (omega arith))
  | no h ↦
      rw (dif_neg _ h) (value-digit 0 (n % 10) out (omega arith) ∙ ap (value out) (omega arith))
]

pub decimal-injective : (m n : ℕ) → decimal m ≡ decimal n → m ≡ n
unfolding decimal value
decimal-injective m n h =
    sym (value-emit m (under (suc m) (omega arith)) [])
    ∙ ap (λ s. value s 0) h
    ∙ value-emit n (under (suc n) (omega arith)) []

decimal_test : decimal 1207 ≡ "1207"
unfolding decimal
decimal_test = refl
