-- ===== src/Prelude/Lists.antt =====
-- Lists measured and indexed by native numbers, under the library's names.
use Prim.Native.Nat.{ℕ, zero, suc, ◌+◌, ◌≤◌, ◌<◌}
use mathlib.Core.Path.{◌≡◌, refl, ap, ◌∙◌}
use mathlib.Core.Logic.{◌⊎◌}
use mathlib.Core.Bool.{Bool, true, false}
use mathlib.Core.List.{List, [], ◌∷◌, ◌++◌, append-nil}
use mathlib.Core.Option.{Option, none, some}
use native.Mathlib.Omega.{arith}

module _ {ℓ} {A : Type ℓ} where
  abbrev pub length : List A → ℕ
  length [] = 0
  length (x ∷ xs) = suc (length xs)

  pub length-append : (xs ys : List A) → length (xs ++ ys) ≡ length xs + length ys
  length-append [] ys = omega arith
  length-append (x ∷ xs) ys = omega (arith, length-append xs ys)

  -- `none` past the end.
  abbrev pub get_elem? : List A → ℕ → Option A
  get_elem? [] i = none
  get_elem? (x ∷ xs) zero = some x
  get_elem? (x ∷ xs) (suc i) = get_elem? xs i

  pub get_elem?-none_of_le : (xs : List A) (i : ℕ) → length xs ≤ i → get_elem? xs i ≡ none
  get_elem?-none_of_le [] i h = refl
  get_elem?-none_of_le (x ∷ xs) zero h = absurd (omega arith)
  get_elem?-none_of_le (x ∷ xs) (suc i) h = get_elem?-none_of_le xs i (omega arith)

  pub get_elem?-some_of_lt :
      (xs : List A) (i : ℕ) → i < length xs → (a : A) × (get_elem? xs i ≡ some a)
  get_elem?-some_of_lt [] i h = absurd (omega arith)
  get_elem?-some_of_lt (x ∷ xs) zero h = (x, refl)
  get_elem?-some_of_lt (x ∷ xs) (suc i) h = get_elem?-some_of_lt xs i (omega arith)

  pub lt_of_get_elem?-some : (xs : List A) (i : ℕ) {a : A} → get_elem? xs i ≡ some a → i < length xs
  lt_of_get_elem?-some [] i h = absurd (ground arith)
  lt_of_get_elem?-some (x ∷ xs) zero h = omega arith
  lt_of_get_elem?-some (x ∷ xs) (suc i) h = omega (arith, lt_of_get_elem?-some xs i h)

-- A predicate of every item, and of some item.
abbrev pub All {ℓ κ} : {A : Type ℓ} (P : A → Type κ) (xs : List A) → Type κ
All P [] = Unit
All P (x ∷ xs) = P x × All P xs

abbrev pub Any {ℓ} : {A : Type ℓ} → (A → Type 0) → List A → Type 0
Any P [] = ⊥
Any P (x ∷ xs) = P x ⊎ Any P xs

module _ {ℓ κ} {A : Type ℓ} (P : A → Type κ) where
  pub All-get_elem? : (xs : List A) (i : ℕ) {a : A} → All P xs → get_elem? xs i ≡ some a → P a
  All-get_elem? [] i h e = absurd (ground arith)
  All-get_elem? (x ∷ xs) zero h e = ground arith
  All-get_elem? (x ∷ xs) (suc i) h e = All-get_elem? xs i h.1 e

-- The items that pass a test, as `[x for x in xs if test(x)]` and a `WHERE` clause have them.
module _ {ℓ} {A : Type ℓ} (test : A → Bool) where
  abbrev pub keep : Bool → A → List A → List A
  keep true x xs = x ∷ xs
  keep false x xs = xs

  unfoldable pub select : List A → List A
  select [] = []
  select (x ∷ xs) = keep (test x) x (select xs)

  pub select-append : (xs ys : List A) → select (xs ++ ys) ≡ select xs ++ select ys
  unfolding select
  select-append [] ys = refl
  select-append (x ∷ xs) ys =
      elim (test x) as (λ b. keep b x (select (xs ++ ys)) ≡ keep b x (select xs) ++ select ys) [
        | true ↦ ap (λ zs. x ∷ zs) (select-append xs ys)
        | false ↦ select-append xs ys
      ]

  -- Items that all fail the test add nothing.
  pub select-none : (xs : List A) → All (λ x. test x ≡ false) xs → select xs ≡ []
  unfolding select
  select-none [] h = refl
  select-none (x ∷ xs) (here, rest) = rw here (select-none xs rest)

  -- A last item that fails the test adds nothing.
  pub select-last : (xs : List A) (x : A) → test x ≡ false → select (xs ++ x ∷ []) ≡ select xs
  select-last xs x h =
      rw (select-append xs (x ∷ [])) (rw (select-none (x ∷ []) (h, tt)) (append-nil (select xs)))

-- A `for` loop over the state p.
module _ {ℓ κ} {A : Type ℓ} {P : Type κ} (step : A → P → P) where
  unfoldable pub for_each : List A → P → P
  for_each [] p = p
  for_each (x ∷ xs) p = for_each xs (step x p)

  -- What no step changes, the loop does not change.
  pub for_each-keeps {μ} :
      {R : Type μ} (view : P → R)
      → ((x : A) (p : P) → view (step x p) ≡ view p)
      → (xs : List A) (p : P) → view (for_each xs p) ≡ view p
  unfolding for_each
  for_each-keeps view h [] p = refl
  for_each-keeps view h (x ∷ xs) p = for_each-keeps view h xs (step x p) ∙ h x p

  -- An invariant that each step keeps on its items.
  pub for_each-All {μ ν} :
      (I : P → Type μ) (Fits : A → Type ν)
      → ((x : A) (p : P) → Fits x → I p → I (step x p))
      → (xs : List A) (p : P) → All Fits xs
      → I p
      → I (for_each xs p)
  unfolding for_each
  for_each-All I Fits h [] p fit i = i
  for_each-All I Fits h (x ∷ xs) p (here, rest) i =
      for_each-All I Fits h xs (step x p) rest (h x p here i)

pub All-append {ℓ κ} :
    {A : Type ℓ} (P : A → Type κ) (xs ys : List A) → All P xs → All P ys → All P (xs ++ ys)
All-append P [] ys left right = right
All-append P (x ∷ xs) ys (here, rest) right = (here, All-append P xs ys rest right)

pub All-mono {ℓ κ μ} :
    {A : Type ℓ} (P : A → Type κ) (Q : A → Type μ)
    → ((x : A) → P x → Q x)
    → (xs : List A) → All P xs
    → All Q xs
All-mono P Q h [] all = tt
All-mono P Q h (x ∷ xs) (here, rest) = (h x here, All-mono P Q h xs rest)
