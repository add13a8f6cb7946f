-- ===== src/Prelude/Sort.antt =====
-- A sort by a test that the first item may stand before the second: Python's `sorted`, ORDER BY.
use mathlib.Core.Bool.{Bool, true, false}
use mathlib.Core.List.{List, [], ◌∷◌}
use tech_screen_ai.Prelude.Lists.{All}
use tech_screen_ai.Prelude.Tests.{if◌then◌else◌}

module _ {ℓ} {A : Type ℓ} (before : A → A → Bool) where
  unfoldable pub place : A → List A → List A
  place x [] = x ∷ []
  place x (y ∷ ys) = let rest = place x ys in if before x y then x ∷ y ∷ ys else y ∷ rest

  unfoldable pub order_by : List A → List A
  order_by [] = []
  order_by (x ∷ xs) = place x (order_by xs)

  -- What holds of every item of the sorted list holds of every item.
  module _ {κ} (P : A → Type κ) where
    pub place-All : (x : A) (ys : List A) → All P (place x ys) → P x × All P ys
    unfolding place
    place-All x [] h = h
    place-All x (y ∷ ys) h =
        (elim (before x y)
            as (λ b. All P (if b then x ∷ y ∷ ys else y ∷ place x ys) → P x × All P (y ∷ ys)) [
              | true ↦ λ g. g
              | false ↦ λ g. ((place-All x ys g.1).0, (g.0, (place-All x ys g.1).1))
            ])
          h

    pub order_by-All : (xs : List A) → All P (order_by xs) → All P xs
    unfolding order_by
    order_by-All [] h = tt
    order_by-All (x ∷ xs) h =
        let placed : P x × All P (order_by xs) = place-All x (order_by xs) h in
        (placed.0, order_by-All xs placed.1)
