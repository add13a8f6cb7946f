-- ===== src/Auth/Spacing.antt =====
-- How often an unknown key makes app/backend/services/auth.py fetch the certificates.
use native.Mathlib.Nat.{suc-mul}
use tech_screen_ai.Prelude.{
  ℕ, suc, ◌+◌, ◌*◌, ◌≤◌, ◌≡◌, ◌⊎◌, inl, inr, refl, ap, Bool, true, false, ◌&&◌, is_some, List, [],
  ◌∷◌, All, arith,
}
use tech_screen_ai.Auth.Verifier.{CertStore, Refresh, Verifier, may_force, refetch, get_certs}

-- The calls of `_get_certs`, in order: whether they ask for a refresh, and what the outside does.
abbrev pub Calls : Type 0
Calls = List (Bool × Refresh)

-- Whether a call makes a forced fetch that returns.
abbrev pub forces : Verifier → Bool → Refresh → CertStore → Bool
forces verifier force attempt store =
    may_force verifier force attempt store && is_some attempt.fetched

abbrev add_one : Bool → ℕ → ℕ
add_one true n = suc n
add_one false n = n

-- How many of the calls make a forced fetch that returns.
unfoldable pub forced_fetches : Verifier → Calls → CertStore → ℕ
forced_fetches verifier [] store = 0
forced_fetches verifier ((force, attempt) ∷ calls) store =
    add_one (forces verifier force attempt store)
      (forced_fetches verifier calls (get_certs verifier force attempt store).1)

-- The calls begin in the window from `from` to `until`, and the clock does not go back in a call.
abbrev pub IsWithin : ℕ → ℕ → Bool × Refresh → Type 0
IsWithin from until (force, attempt) =
    (from ≤ attempt.start) × ((attempt.start ≤ until) × (attempt.start ≤ attempt.forced_at))

module _ (verifier : Verifier) where
  -- A forced fetch begins at the end of the cooldown or later, and begins another one.
  forces-start :
      (force : Bool) (attempt : Refresh) (store : CertStore)
      → forces verifier force attempt store ≡ true
      → store.forced_ok_after ≤ attempt.start
  unfolding may_force
  forces-start force attempt store h = ground arith

  forces-cooldown :
      (force : Bool) (attempt : Refresh) (store : CertStore)
      → forces verifier force attempt store ≡ true
      → (get_certs verifier force attempt store).1.forced_ok_after
        ≡ attempt.forced_at + verifier.forced_cooldown
  unfolding get_certs refetch may_force
  forces-cooldown force attempt store h = ground arith

  -- Any other call leaves the cooldown as it is.
  keeps-cooldown :
      (force : Bool) (attempt : Refresh) (store : CertStore)
      → forces verifier force attempt store ≡ false
      → (get_certs verifier force attempt store).1.forced_ok_after ≡ store.forced_ok_after
  unfolding get_certs refetch may_force
  keeps-cooldown force attempt store h = ground arith

  abbrev IsBounded : ℕ → ℕ → ℕ → Type 0
  IsBounded n from until =
      (n ≡ 0) ⊎ (n * verifier.forced_cooldown + from ≤ until + verifier.forced_cooldown)

  bound-next :
      (n from start forced_at until : ℕ)
      → from ≤ start
      → start ≤ until
      → start ≤ forced_at
      → IsBounded n (forced_at + verifier.forced_cooldown) until
      → IsBounded (suc n) from until
  bound-next n from start forced_at until h i j (inl none_left) = inr (
      omega (
        arith,
        h,
        i,
        none_left,
        suc-mul n verifier.forced_cooldown,
        ap (λ k. k * verifier.forced_cooldown) none_left,
      ))
  bound-next n from start forced_at until h i j (inr rest) =
      inr (omega (arith, h, i, j, rest, suc-mul n verifier.forced_cooldown))

  fetches-IsBounded :
      (calls : Calls) (store : CertStore) (low from until : ℕ)
      → All (IsWithin low until) calls
      → (from ≤ store.forced_ok_after) ⊎ (from ≤ low)
      → IsBounded (forced_fetches verifier calls store) from until
  unfolding forced_fetches
  fetches-IsBounded [] store low from until within h = inl refl
  fetches-IsBounded ((force, attempt) ∷ calls) store low from until ((begins, (ends, clock)), rest)
        h =
      (elim (forces verifier force attempt store)
          as (λ b.
            forces verifier force attempt store ≡ b
            → IsBounded
                (add_one b
                  (forced_fetches verifier calls (get_certs verifier force attempt store).1))
                from until) [
                  | true ↦ λ e.
                      bound-next
                        (forced_fetches verifier calls (get_certs verifier force attempt store).1)
                        from attempt.start attempt.forced_at until
                        (ground (arith, forces-start force attempt store e)) ends clock
                        (fetches-IsBounded calls (get_certs verifier force attempt store).1 low
                          (attempt.forced_at + verifier.forced_cooldown) until rest
                          (inl (ground (arith, forces-cooldown force attempt store e))))
                  | false ↦ λ e.
                      fetches-IsBounded calls (get_certs verifier force attempt store).1 low from
                        until rest (ground (arith, keeps-cooldown force attempt store e))
                ])
        refl

-- Over any calls of _get_certs that begin in a window of time, from any store, the forced fetches
-- that return, times the cooldown, are at most the length of the window plus one cooldown, if the
-- clock does not go back in a call.
pub forced_fetches-bound :
    (verifier : Verifier) (calls : Calls) (store : CertStore) (from until : ℕ)
    → All (IsWithin from until) calls
    → from ≤ until
    → forced_fetches verifier calls store * verifier.forced_cooldown + from
      ≤ until + verifier.forced_cooldown
forced_fetches-bound verifier calls store from until within order =
    finish (fetches-IsBounded verifier calls store from from until within (inr (omega arith)))
  where
    finish :
        (forced_fetches verifier calls store ≡ 0)
          ⊎ (forced_fetches verifier calls store * verifier.forced_cooldown + from
              ≤ until + verifier.forced_cooldown)
        → forced_fetches verifier calls store * verifier.forced_cooldown + from
          ≤ until + verifier.forced_cooldown
    finish (inl none_made) = omega (arith, ap (λ k. k * verifier.forced_cooldown) none_made)
    finish (inr bound) = bound
