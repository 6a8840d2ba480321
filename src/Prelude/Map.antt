-- ===== src/Prelude/Map.antt =====
-- A Go map keyed by UUIDs, as an association list; a new key goes to the end.
pub mod Keyed
use hedonify.Prelude.Tests.{Bool-cases, ==_iff, ◌==◌, if◌then◌else◌}
use Prim.Native.Nat.{ℕ, ◌+◌, ◌≤◌}
use mathlib.Core.Path.{◌≡◌, sym, ap}
use mathlib.Core.Logic.{inl, inr}
use mathlib.Core.Option.{Option, none, some}
use mathlib.Core.List.{List, [], ◌∷◌, Permᴰ}
use native.Mathlib.Omega.{arith}
use hedonify.Prelude.Lists.{sum_of}

abbrev pub Map {ℓ} : Type ℓ → Type ℓ
Map V = List (ℕ × V)

module _ {ℓ} {V : Type ℓ} where
  -- `v, ok := m[k]`
  abbrev pub lookup : ℕ → Map V → Option V
  lookup k [] = none
  lookup k ((j, v) ∷ m) = if k == j then some v else lookup k m

  -- `m[k] = v`
  abbrev pub insert : ℕ → V → Map V → Map V
  insert k v [] = (k, v) ∷ []
  insert k v ((j, w) ∷ m) = if k == j then (k, v) ∷ m else (j, w) ∷ insert k v m

  pub lookup-insert :
      (j k : ℕ) (v : V) (m : Map V)
      → lookup j (insert k v m) ≡ (if j == k then some v else lookup j m)
  lookup-insert j k v [] = ground arith
  lookup-insert j k v ((i, w) ∷ m) = ground (arith, lookup-insert j k v m)

  pub lookup-insert_fresh :
      (j k : ℕ) (v w : V) (m : Map V)
      → lookup k m ≡ none
      → lookup j m ≡ some v
      → lookup j (insert k w m) ≡ some v
  lookup-insert_fresh j k v w m fresh found = elim (Bool-cases (j == k)) [
    | inl same ↦ cc (sym fresh, found, ap (λ i. lookup i m) ((==_iff j k).0 same))
    | inr other ↦ rw (lookup-insert j k w m, other) found
  ]

  -- The sum of a measure of the values.
  abbrev pub sum_values : (V → ℕ) → Map V → ℕ
  sum_values f = sum_of (λ e. f e.1)

  pub sum_values-insert :
      (f : V → ℕ) (k : ℕ) (v w : V) (m : Map V)
      → lookup k m ≡ some v
      → sum_values f (insert k w m) + f v ≡ sum_values f m + f w
  sum_values-insert f k v w [] e = cc
  sum_values-insert f k v w (x ∷ m) e = ground (arith, sum_values-insert f k v w m)

  pub sum_values-insert_new :
      (f : V → ℕ) (k : ℕ) (w : V) (m : Map V)
      → lookup k m ≡ none
      → sum_values f (insert k w m) ≡ sum_values f m + f w
  sum_values-insert_new f k w [] e = omega arith
  sum_values-insert_new f k w (x ∷ m) e = ground (arith, sum_values-insert_new f k w m)

  pub lookup-le-sum_values :
      (f : V → ℕ) (k : ℕ) (v : V) (m : Map V) → lookup k m ≡ some v → f v ≤ sum_values f m
  lookup-le-sum_values f k v [] e = cc
  lookup-le-sum_values f k v (x ∷ m) e = ground (arith, lookup-le-sum_values f k v m)

-- The order in which Go ranges over a map: some order of its entries.
pub record RangeOrder (V : Type 0) : Type 0 where
  pub range : Map V → List (ℕ × V)
  pub range_perm : (m : Map V) → Permᴰ (range m) m
