-- ===== src/Order/Batch/Stock/Rows.antt =====
-- What the statement makes of the row of a product.
use hedonify.Prelude.{
  ℕ, ◌+◌, ◌≤◌, ◌<◌, ◌^◌, ◌≡◌, refl, sym, ap, ◌∙◌, inl, inr, true, ℤ, pos, List, [], ◌∷◌, some,
  arith, ◌==◌, ==_iff, Bool-cases, select, subst, wrap32, wrap32_self, elem, ◌-ℤ◌,
}
use mathlib.Core.Option
use hedonify.Repository.Models.{Product}
use hedonify.Repository.Products.{case_value, decrease_row}
use hedonify.Order.Request.{OrderItem}
use hedonify.Order.Batch.Items.{total}
use hedonify.Order.Batch.Merge.Entries.{entry}
use hedonify.Order.Batch.Check.Fit.{AreNonneg, all_units, fit, fit-le, fit-AreNonneg, total-units}
use hedonify.Order.Batch.Check.Loop.{of_items}
use hedonify.Order.Batch.Check.Products.{IsStocked, stock}
use hedonify.Order.Batch.Check.Allotment.{find_product, allotted}
use hedonify.Order.Batch.Stock.Keys.{has}
use hedonify.Order.Batch.Stock.Decrease.{row_after}
use hedonify.Order.Batch.Stock.Taken.{allotted_nil}

pub find_product-id :
    (p : ℕ) (row : Product) (rows : List Product) → find_product p rows ≡ some row → p ≡ row.id
find_product-id p row [] e = cc
find_product-id p row (r ∷ rows) e = ground (arith, find_product-id p row rows)

pub find_product-select :
    (p : ℕ) (row : Product) (ids : List ℕ) (rows : List Product)
    → elem p ids ≡ true
    → find_product p rows ≡ some row
    → find_product p (select (λ r. elem r.id ids) rows) ≡ some row
find_product-select p row ids [] h e = cc
find_product-select p row ids (r ∷ rows) h e = elim (Bool-cases (p == r.id)) [
  | inl same ↦ ground (arith, same, e, h, ap (λ k. elem k ids) ((==_iff p r.id).0 same))
  | inr other ↦ ground (arith, other, e, find_product-select p row ids rows h)
]

-- The number that the arm of a product says.
pub fit_quantity :
    (s : ℕ) (xs : List OrderItem)
    → s < 2 ^ 31
    → AreNonneg xs
    → wrap32 (total (fit s xs)) ≡ pos (all_units (fit s xs))
fit_quantity s xs small nonneg =
    rw (total-units (fit s xs) (fit-AreNonneg s xs nonneg))
      (wrap32_self (pos (all_units (fit s xs))) (omega arith, omega (arith, fit-le s xs)))

abbrev Lowered : Product → ℕ → Product → Type 0
Lowered row u row' = (stock row' + u ≡ stock row) × IsStocked row'

decrease_row-Lowered :
    (arms : List (ℕ × ℤ)) (now u : ℕ) (row row' : Product)
    → IsStocked row
    → case_value row.id arms ≡ some (pos u)
    → u ≤ stock row
    → decrease_row arms now row ≡ some row'
    → Lowered row u row'
unfolding decrease_row ◌-ℤ◌
decrease_row-Lowered arms now u row row' stocked arm le e = ground arith

-- A row loses the units that its product's requests got.
pub row_after-Lowered :
    (products : List Product) (arms : List (ℕ × ℤ)) (ids : List ℕ) (now : ℕ) (row row' : Product)
    (xs : List OrderItem)
    → IsStocked row
    → AreNonneg xs
    → (has (entry xs) ≡ true → find_product row.id products ≡ some row)
    → elem row.id ids ≡ has (entry xs)
    → case_value row.id arms
      ≡ Option.map
          (λ merged. merged.ordered_item_quantity)
          (Option.map (λ e. of_items (allotted products row.id e.items)) (entry xs))
    → row_after arms ids now row ≡ some row'
    → Lowered row (all_units (allotted products row.id xs)) row'
unfolding row_after
row_after-Lowered products arms ids now row row' [] stocked nonneg read listed arm e =
    let same : row ≡ row' = Option.some-injective _ _ (sym (rw (listed, row_after) refl) ∙ e) in
    rw (allotted_nil products row.id)
      (subst (λ (r : Product). Lowered row 0 r) same (omega arith, stocked))
row_after-Lowered products arms ids now row row' (x ∷ xs) stocked nonneg read listed arm e =
    let ran : decrease_row arms now row ≡ some row' = sym (rw (listed, row_after) refl) ∙ e in
    let items : allotted products row.id (x ∷ xs) ≡ fit (stock row) (x ∷ xs) =
      rw (read refl, allotted) refl in
    rw items (
      decrease_row-Lowered arms now (all_units (fit (stock row) (x ∷ xs))) row row' stocked
        (arm
          ∙ ap (λ ys. some (wrap32 (total ys))) items
          ∙ ap some (fit_quantity (stock row) (x ∷ xs) (ground arith) nonneg))
        (fit-le (stock row) (x ∷ xs)) ran)
