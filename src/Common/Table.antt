-- ===== src/Common/Table.antt =====
-- A Python `dict` with integer keys, in insertion order.
use Prim.Native.Nat.{ℕ}
use mathlib.Core.Path.{◌≡◌, refl}
use mathlib.Core.Logic.{inl, inr}
use mathlib.Core.Bool.{Bool, true, false}
use mathlib.Core.Option.{Option, none, some}
use mathlib.Core.List.{List, [], ◌∷◌}
use native.Mathlib.Omega.{arith}
use compost_rpc.Common.Tests.{Bool-cases, ◌==◌, if◌then◌else◌}

module _ {ℓ} {A : Type ℓ} where
  unfoldable pub lookup : ℕ → List (ℕ × A) → Option A
  lookup k [] = none
  lookup k ((j, a) ∷ t) = if j == k then some a else lookup k t

  -- `k in t`
  unfoldable pub has : ℕ → List (ℕ × A) → Bool
  has k [] = false
  has k ((j, a) ∷ t) = if j == k then true else has k t

  -- `t[k] = a`: a key that is there keeps its place.
  unfoldable pub insert : ℕ → A → List (ℕ × A) → List (ℕ × A)
  insert k a [] = (k, a) ∷ []
  insert k a ((j, b) ∷ t) = if j == k then (k, a) ∷ t else (j, b) ∷ insert k a t

  pub lookup-insert :
      (k j : ℕ) (a : A) (t : List (ℕ × A))
      → lookup j (insert k a t) ≡ (if k == j then some a else lookup j t)
  unfolding lookup insert
  lookup-insert k j a [] = refl
  lookup-insert k j a ((i, b) ∷ t) = ground (arith, lookup-insert k j a t)

  pub has-insert :
      (k j : ℕ) (a : A) (t : List (ℕ × A))
      → has j (insert k a t) ≡ (if k == j then true else has j t)
  unfolding has insert
  has-insert k j a [] = refl
  has-insert k j a ((i, b) ∷ t) = ground (arith, has-insert k j a t)

  pub has-lookup : (k : ℕ) (t : List (ℕ × A)) → has k t ≡ true → (a : A) × (lookup k t ≡ some a)
  unfolding has lookup
  has-lookup k [] h = cc
  has-lookup k ((j, a) ∷ t) h = elim (Bool-cases (j == k)) [
    | inl here ↦ (a, rw here refl)
    | inr there ↦ let (b, found) = has-lookup k t (rw there at h) in (b, rw there found)
  ]

  pub has-none : (k : ℕ) (t : List (ℕ × A)) → has k t ≡ false → lookup k t ≡ none
  unfolding has lookup
  has-none k [] h = refl
  has-none k ((j, a) ∷ t) h = ground (arith, has-none k t)
