-- ===== src/Prelude/Dict.antt =====
-- A Python `dict`: an association list in insertion order.
use mathlib.Core.Path.{◌≡◌, refl, sym, subst}
use mathlib.Core.Logic.{◌≢◌}
use mathlib.Core.Option.{Option, none, some}
use mathlib.Core.List.{List, [], ◌∷◌}
use mathlib.Core.Bool.{true, false}
use tech_screen_ai.Prelude.Lists.{All}
use native.Mathlib.Omega.{arith}
use tech_screen_ai.Prelude.Tests.{if◌then◌else◌}
use tech_screen_ai.Prelude.Equality.{Key, ◌==◌}

abbrev pub Dict {ℓ κ} : Type ℓ → Type κ → Type (ℓ ⊔ κ)
Dict K V = List (K × V)

module _ {ℓ κ} {K : Type ℓ} {V : Type κ} ⦃key : Key K⦄ where
  -- d.get(k)
  unfoldable pub lookup : K → Dict K V → Option V
  lookup k [] = none
  lookup k ((j, v) ∷ d) = if j == k then some v else lookup k d

  -- d[k] = v, and {**d, k: v}: a key that is there keeps its place
  unfoldable pub insert : K → V → Dict K V → Dict K V
  insert k v [] = (k, v) ∷ []
  insert k v ((j, w) ∷ d) = if j == k then (j, v) ∷ d else (j, w) ∷ insert k v d

  -- {j: v for j, v in d.items() if j != k}
  unfoldable pub erase : K → Dict K V → Dict K V
  erase k [] = []
  erase k ((j, v) ∷ d) = let rest = erase k d in if j == k then rest else (j, v) ∷ rest

  -- d.get(k, v)
  abbrev pub get_or : K → V → Dict K V → V
  get_or k v d = elim (lookup k d) [ none ↦ v | some w ↦ w ]

  pub lookup-insert :
      (k j : K) (v : V) (d : Dict K V)
      → lookup j (insert k v d) ≡ (if k == j then some v else lookup j d)
  unfolding lookup insert
  lookup-insert k j v [] = refl
  lookup-insert k j v ((i, w) ∷ d) =
      ground (
        arith,
        key.is_same_iff k j,
        key.is_same_iff i k,
        key.is_same_iff i j,
        lookup-insert k j v d,
      )

  pub lookup-insert-same : (k : K) (v : V) (d : Dict K V) → lookup k (insert k v d) ≡ some v
  lookup-insert-same k v d = ground (arith, key.is_same_iff k k, lookup-insert k k v d)

  pub lookup-insert-other :
      (k j : K) (v : V) (d : Dict K V) → j ≢ k → lookup j (insert k v d) ≡ lookup j d
  lookup-insert-other k j v d ne = ground (arith, key.is_same_iff k j, lookup-insert k j v d)

  pub lookup-erase :
      (k j : K) (d : Dict K V) → lookup j (erase k d) ≡ (if k == j then none else lookup j d)
  unfolding lookup erase
  lookup-erase k j [] = ground arith
  lookup-erase k j ((i, w) ∷ d) =
      ground
        (arith, key.is_same_iff k j, key.is_same_iff i k, key.is_same_iff i j, lookup-erase k j d)

  -- A predicate of the entries.
  module _ {μ} (P : K × V → Type μ) where
    pub All-insert : (k : K) (v : V) (d : Dict K V) → P (k, v) → All P d → All P (insert k v d)
    unfolding insert
    All-insert k v [] p all = (p, tt)
    All-insert k v ((j, w) ∷ d) p (here, rest) =
        (elim (j == k)
            as (λ b. j == k ≡ b → All P (if b then (j, v) ∷ d else (j, w) ∷ insert k v d)) [
              | true ↦ λ same. (subst (λ i. P (i, v)) (sym ((key.is_same_iff j k).0 same)) p, rest)
              | false ↦ λ _. (here, All-insert k v d p rest)
            ])
          refl

    pub All-erase : (k : K) (d : Dict K V) → All P d → All P (erase k d)
    unfolding erase
    All-erase k [] all = tt
    All-erase k ((j, v) ∷ d) (here, rest) =
        elim (j == k) as (λ b. All P (if b then erase k d else (j, v) ∷ erase k d)) [
          | true ↦ All-erase k d rest
          | false ↦ (here, All-erase k d rest)
        ]

    pub All-lookup : (k : K) {v : V} (d : Dict K V) → All P d → lookup k d ≡ some v → P (k, v)
    unfolding lookup
    All-lookup k [] all e = absurd (ground arith)
    All-lookup k {v} ((j, w) ∷ d) (here, rest) e =
        (elim (j == k)
            as (λ b. j == k ≡ b → (if b then some w else lookup k d) ≡ some v → P (k, v)) [
              | true ↦
                  λ same found. subst P (ground (arith, (key.is_same_iff j k).0 same, found)) here
              | false ↦ λ _ found. All-lookup k d rest found
            ])
          refl e

pub ruleset dict_laws = (lookup-insert, lookup-erase)
