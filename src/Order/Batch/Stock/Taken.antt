-- ===== src/Order/Batch/Stock/Taken.antt =====
-- What the checked entries take of each product.
use hedonify.Prelude.{
  ℕ, ◌≡◌, refl, sym, ap, ◌∙◌, inl, inr, List, [], ◌∷◌, some, arith, Option-cases, All-append_left,
  subst,
}
use mathlib.Core.Option
use hedonify.Prelude.Map.{Map, lookup, sum_values}
use hedonify.Prelude.Map.Keyed.{IsKeyed, value_or, sum_values-one}
use hedonify.Repository.Models.{Product}
use hedonify.Order.Request.{OrderItem}
use hedonify.Order.Batch.Items.{of_product}
use hedonify.Order.Batch.Merge.{MergedOrderItem}
use hedonify.Order.Batch.Merge.Entries.{entry}
use hedonify.Order.Batch.Check.Fit.{all_units, fit, fit-prefix}
use hedonify.Order.Batch.Check.Loop.{of_items}
use hedonify.Order.Batch.Check.Products.{stock}
use hedonify.Order.Batch.Check.Allotment.{find_product, allotted}
use hedonify.Order.Batch.Stock.Sold.{AreOf, wanted, wanted_own, wanted_other}

of_product-AreOf : (k : ℕ) (xs : List OrderItem) → AreOf k (of_product k xs)
of_product-AreOf k [] = tt
of_product-AreOf k (x ∷ xs) = ground (arith, of_product-AreOf k xs)

allotted-AreOf :
    (products : List Product) (k : ℕ) (xs : List OrderItem)
    → AreOf k xs
    → AreOf k (allotted products k xs)
allotted-AreOf products k xs h = elim (Option-cases (find_product k products)) [
  | inl e ↦ rw (e, allotted) h
  | inr (product, e) ↦
      let (rest, split) = fit-prefix (stock product) xs in
      rw (e, allotted)
        (All-append_left (λ i. k ≡ i.product_id) (fit (stock product) xs) rest
          (subst (λ (ys : List OrderItem). AreOf k ys) split h))
]

-- The map that checking leaves, by the items that were requested.
abbrev pub Allots : List Product → List OrderItem → Map MergedOrderItem → Type 0
Allots products items entries =
    (p : ℕ)
    → lookup p entries
      ≡ Option.map (λ e. of_items (allotted products p e.items)) (entry (of_product p items))

-- The units taken of a product.
abbrev pub taken : List Product → List OrderItem → ℕ → ℕ
taken products items p = all_units (allotted products p (of_product p items))

entry-AreOf :
    (products : List Product) (k : ℕ) (xs : List OrderItem) (v : MergedOrderItem)
    → AreOf k xs
    → Option.map (λ e. of_items (allotted products k e.items)) (entry xs) ≡ some v
    → AreOf k v.items
entry-AreOf products k [] v h e = cc
entry-AreOf products k (x ∷ xs) v h e =
    subst (λ (w : MergedOrderItem). AreOf k w.items) (Option.some-injective _ _ e)
      (allotted-AreOf products k (x ∷ xs) h)

pub allotted_nil : (products : List Product) (p : ℕ) → all_units (allotted products p []) ≡ 0
unfolding fit
allotted_nil products p = elim (Option-cases (find_product p products)) [
  | inl e ↦ rw (e, allotted) refl
  | inr (product, e) ↦ rw (e, allotted) refl
]

value_or-entry :
    (products : List Product) (p : ℕ) (xs : List OrderItem)
    → AreOf p xs
    → value_or
        (λ v. wanted p v.items)
        (Option.map (λ e. of_items (allotted products p e.items)) (entry xs))
      ≡ all_units (allotted products p xs)
value_or-entry products p [] h = sym (allotted_nil products p)
value_or-entry products p (x ∷ xs) h =
    wanted_own p (allotted products p (x ∷ xs)) (allotted-AreOf products p (x ∷ xs) h)

-- The items of the map want of each product what is taken of it.
pub Allots-sum :
    (products : List Product) (items : List OrderItem) (entries : Map MergedOrderItem)
    → IsKeyed entries
    → Allots products items entries
    → (p : ℕ) → sum_values (λ v. wanted p v.items) entries ≡ taken products items p
Allots-sum products items entries keyed allots p =
    sum_values-one (λ v. wanted p v.items) p entries keyed
      (λ k v e other.
        wanted_other p k v.items
          (entry-AreOf products k (of_product k items) v (of_product-AreOf k items)
            (sym (allots k) ∙ e))
          other)
    ∙ ap (value_or (λ v. wanted p v.items)) (allots p)
    ∙ value_or-entry products p (of_product p items) (of_product-AreOf p items)
