-- ===== src/Prelude/Map/Keyed.antt =====
-- Maps whose keys are distinct, as every map of the program is, and what ranging over one gives.
use Prim.Native.Nat.{ℕ}
use mathlib.Core.Path.{◌≡◌, refl, sym, ap, ◌∙◌, subst, subst₂}
use mathlib.Core.Logic.{inl, inr}
use mathlib.Core.Bool.{false}
use mathlib.Core.Option.{Option, none, some}
use mathlib.Core.List.{[], ◌∷◌, Permᴰ}
use native.Mathlib.Omega.{arith}
use hedonify.Prelude.Tests.{◌==◌, ==_iff, ==_refl, if◌then◌else◌, Bool-cases}
use hedonify.Prelude.Lists.{sum_of}
use hedonify.Prelude.Map.{Map, lookup, insert, lookup-insert, sum_values}

module _ {ℓ} {V : Type ℓ} where
  abbrev pub IsKeyed : Map V → Type ℓ
  IsKeyed [] = Unit
  IsKeyed ((k, v) ∷ m) = (lookup k m ≡ none) × IsKeyed m

  pub insert-IsKeyed : (k : ℕ) (v : V) (m : Map V) → IsKeyed m → IsKeyed (insert k v m)
  insert-IsKeyed k v [] h = (refl, tt)
  insert-IsKeyed k v ((j, w) ∷ m) h = elim (Bool-cases (k == j)) [
    | inl same ↦ rw same (ap (λ i. lookup i m) ((==_iff k j).0 same) ∙ h.0, h.1)
    | inr other ↦ rw other (ground (arith, lookup-insert j k v m, h.0), insert-IsKeyed k v m h.1)
  ]

  pub sum_of-perm : (f : ℕ × V → ℕ) {xs ys : Map V} → Permᴰ xs ys → sum_of f xs ≡ sum_of f ys
  sum_of-perm f Permᴰ.nil = refl
  sum_of-perm f (Permᴰ.cons e p) = omega (arith, ap f e, sum_of-perm f p)
  sum_of-perm f (Permᴰ.swap e e') = omega (arith, ap f e, ap f e')
  sum_of-perm f (Permᴰ.trans p q) = sum_of-perm f p ∙ sum_of-perm f q

  abbrev Looks : Map V → Map V → Type ℓ
  Looks xs ys = IsKeyed ys × ((k : ℕ) → lookup k xs ≡ lookup k ys)

  cons-Looks :
      (a : ℕ × V) (xs ys : Map V) → Looks xs ys → lookup a.0 xs ≡ none → Looks (a ∷ xs) (a ∷ ys)
  cons-Looks a xs ys h e =
      ((sym (h.1 a.0) ∙ e, h.0), λ k. ap (λ o. if k == a.0 then some a.1 else o) (h.1 k))

  swap-Looks : (a b : ℕ × V) (l : Map V) → IsKeyed (a ∷ b ∷ l) → Looks (a ∷ b ∷ l) (b ∷ a ∷ l)
  swap-Looks a b l h =
      ((ground (arith, h.0, h.1), (ground (arith, h.0, h.1), h.1.1)), λ k. ground (arith, h.0, h.1))

  -- Maps with distinct keys have the same entries in every order.
  pub lookup-perm : {xs ys : Map V} → Permᴰ xs ys → IsKeyed xs → Looks xs ys
  lookup-perm Permᴰ.nil h = (tt, λ k. refl)
  lookup-perm (Permᴰ.cons {a} {b} {l₁} {l₂} e p) h =
      subst (λ c. Looks (a ∷ l₁) (c ∷ l₂)) e (cons-Looks a l₁ l₂ (lookup-perm p h.1) h.0)
  lookup-perm (Permᴰ.swap {a} {b} {a'} {b'} {l} e e') h =
      subst₂ (λ c d. Looks (a ∷ b ∷ l) (c ∷ d ∷ l)) e' e (swap-Looks a b l h)
  lookup-perm (Permᴰ.trans p q) h =
      let first = lookup-perm p h in
      let second = lookup-perm q first.0 in (second.0, λ k. first.1 k ∙ second.1 k)

  abbrev pub value_or : (V → ℕ) → Option V → ℕ
  value_or f none = 0
  value_or f (some v) = f v

  -- A measure that is zero away from one key.
  pub sum_values-one :
      (f : V → ℕ) (p : ℕ) (m : Map V)
      → IsKeyed m
      → ((k : ℕ) (v : V) → lookup k m ≡ some v → (p == k) ≡ false → f v ≡ 0)
      → sum_values f m ≡ value_or f (lookup p m)
  sum_values-one f p [] h away = refl
  sum_values-one f p ((k, v) ∷ m) h away = elim (Bool-cases (p == k)) [
    | inl same ↦ rw same (
        omega (
          arith,
          sum_values-one f p m h.1 below,
          ap (value_or f) (ap (λ i. lookup i m) ((==_iff p k).0 same) ∙ h.0),
        ))
    | inr other ↦
        rw other
          (omega (arith, sum_values-one f p m h.1 below, away k v (rw (==_refl k) refl) other))
  ]
    where
      below : (j : ℕ) (w : V) → lookup j m ≡ some w → (p == j) ≡ false → f w ≡ 0
      below j w e miss = elim (Bool-cases (j == k)) [
        | inl same ↦ cc (sym e ∙ ap (λ i. lookup i m) ((==_iff j k).0 same), h.0)
        | inr other ↦ away j w (rw other e) miss
      ]
