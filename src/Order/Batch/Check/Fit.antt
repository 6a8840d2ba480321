-- ===== src/Order/Batch/Check/Fit.antt =====
-- The reference for the check: the longest run of requests, first come first served, that the
-- stock covers.
use hedonify.Prelude.{
  ℕ, ◌-◌, ◌<◌, ◌≤◌, ◌^◌, ◌≡◌, refl, pos, ◌+ℤ◌, ◌≤ℤ◌, pos_part, List, [], ◌∷◌, ◌++◌, arith, leb,
  if◌then◌else◌, sum_of, All, ltb_ℤ, ltb, sub32, wrap32, ◌-ℤ◌, ap, Bool-cases, inl, inr,
}
use hedonify.Order.Request.{OrderItem}
use hedonify.Order.Batch.Items.{total}

-- A quantity as a number, where it is not negative.
abbrev pub units : OrderItem → ℕ
units item = pos_part item.quantity

abbrev pub AreNonneg : List OrderItem → Type 0
AreNonneg = All (λ item. pos 0 ≤ℤ item.quantity)

abbrev pub all_units : List OrderItem → ℕ
all_units = sum_of units

-- The items that get stock: each in its turn while the stock lasts, and none after the first that
-- does not fit.
unfoldable pub fit : ℕ → List OrderItem → List OrderItem
fit stock [] = []
fit stock (x ∷ xs) = if leb (units x) stock then x ∷ fit (stock - units x) xs else []

pub fit_all : (stock : ℕ) (xs : List OrderItem) → all_units xs ≤ stock → fit stock xs ≡ xs
unfolding fit
fit_all stock [] h = refl
fit_all stock (x ∷ xs) h = ground (arith, fit_all (stock - units x) xs)

pub fit_snoc :
    (stock : ℕ) (xs : List OrderItem) (x : OrderItem)
    → stock < all_units (xs ++ x ∷ [])
    → fit stock (xs ++ x ∷ []) ≡ fit stock xs
unfolding fit
fit_snoc stock [] x h = ground arith
fit_snoc stock (y ∷ xs) x h = ground (arith, fit_snoc (stock - units y) xs x)

pub fit-le : (stock : ℕ) (xs : List OrderItem) → all_units (fit stock xs) ≤ stock
unfolding fit
fit-le stock [] = omega arith
fit-le stock (x ∷ xs) = ground (arith, fit-le (stock - units x) xs)

-- What gets stock is a first part of what was asked for.
pub fit-prefix :
    (stock : ℕ) (xs : List OrderItem) → (rest : List OrderItem) × (xs ≡ fit stock xs ++ rest)
unfolding fit
fit-prefix stock [] = ([], refl)
fit-prefix stock (x ∷ xs) = elim (Bool-cases (leb (units x) stock)) [
  | inl yes' ↦ let (rest, e) = fit-prefix (stock - units x) xs in (rest, rw yes' (ap (◌∷◌ x) e))
  | inr no' ↦ (x ∷ xs, rw no' refl)
]

pub fit-AreNonneg : (stock : ℕ) (xs : List OrderItem) → AreNonneg xs → AreNonneg (fit stock xs)
unfolding fit
fit-AreNonneg stock [] h = tt
fit-AreNonneg stock (x ∷ xs) h = ground (arith, fit-AreNonneg (stock - units x) xs h.1)

pub fit-le_all : (stock : ℕ) (xs : List OrderItem) → all_units (fit stock xs) ≤ all_units xs
unfolding fit
fit-le_all stock [] = omega arith
fit-le_all stock (x ∷ xs) = ground (arith, fit-le_all (stock - units x) xs)

pub total-units : (xs : List OrderItem) → AreNonneg xs → total xs ≡ pos (all_units xs)
unfolding total ◌+ℤ◌
total-units [] h = refl
total-units (x ∷ xs) h = ground (arith, total-units xs h.1)

-- The test of the loop, on numbers that are no larger than an int32.
pub short_test :
    (s u : ℕ) → s < 2 ^ 31 → u < 2 ^ 31 → ltb_ℤ (sub32 (pos s) (wrap32 (pos u))) (pos 0) ≡ ltb s u
unfolding sub32 wrap32 ◌-ℤ◌
short_test s u hs hu = ground arith
