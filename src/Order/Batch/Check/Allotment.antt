-- ===== src/Order/Batch/Check/Allotment.antt =====
-- What merging and checking a whole batch amount to.
use hedonify.Prelude.{
  ℕ, ◌<◌, ◌≤◌, ◌^◌, ◌≡◌, ◌≢◌, refl, sym, ap, ◌∙◌, inl, inr, List, [], ◌∷◌, arith, ◌==◌, ==_iff,
  if◌then◌else◌, Bool-cases, Option, none, some, All, find_first, ok, Outcome, true, false, subst,
}
use mathlib.Core.Option
use hedonify.Prelude.Map.{lookup}
use hedonify.Repository.Models.{Product}
use hedonify.Order.Request.{OrderItem, CreateOrder}
use hedonify.Order.Batch.Items.{requested, of_product, AreInt32}
use hedonify.Order.Batch.Merge.{merge_order_items}
use hedonify.Order.Batch.Merge.Entries.{entry, merge_order_items-lookup}
use hedonify.Order.Batch.Merge.Orders.{
  IsWellFormed, first_order, merge_order_items-map_order, merge_order_items-order_count,
}
use hedonify.Order.Batch.Check.Fit.{AreNonneg, all_units, fit}
use hedonify.Order.Batch.Check.Drop.{strip}
use hedonify.Order.Batch.Check.Loop.{of_items}
use hedonify.Order.Batch.Check.Products.{
  Listing, IsBounded, IsBalanced, IsStocked, stock, after_product, after_products,
  check_decrease_quantity_lem,
}
use hedonify.Order.Batch.Check.{Maps, check_decrease_quantity}

-- The calls of mergeOrderItems and checkDecreaseQuantity in BatchCreateOrder.
abbrev pub checked : List Product → List CreateOrder → Outcome Maps
checked products params = check_decrease_quantity products (record {
  map_merged_order_item = (merge_order_items params).map_merged_order_item;
  map_order = (merge_order_items params).map_order;
})

-- A batch whose orders are distinct, whose items name their orders, and which asks for no negative
-- quantity and for fewer than 2^31 units in all.
pub record IsRegular (params : List CreateOrder) : Type 0 where
  pub well_formed : IsWellFormed params
  pub nonneg : AreNonneg (requested params)
  pub small : all_units (requested params) < 2 ^ 31

-- Rows with distinct identifiers, as the primary key has it.
abbrev pub AreKeyed : List Product → Type 0
AreKeyed [] = Unit {0}
AreKeyed (product ∷ rest) = All (λ other. other.id ≢ product.id) rest × AreKeyed rest

abbrev pub find_product : ℕ → List Product → Option Product
find_product p = find_first (λ product. p == product.id)

-- The items of a product that get stock: all of them if the product was not read.
abbrev pub allotted : List Product → ℕ → List OrderItem → List OrderItem
allotted products p xs = elim (find_product p products) [
  | none ↦ xs
  | some product ↦ fit (stock product) xs
]

pub AreNonneg-of_product :
    (p : ℕ) (xs : List OrderItem) → AreNonneg xs → AreNonneg (of_product p xs)
AreNonneg-of_product p [] h = tt
AreNonneg-of_product p (x ∷ xs) h = ground (arith, AreNonneg-of_product p xs h.1)

of_product-le : (p : ℕ) (xs : List OrderItem) → all_units (of_product p xs) ≤ all_units xs
of_product-le p [] = omega arith
of_product-le p (x ∷ xs) = ground (arith, of_product-le p xs)

pub small-AreInt32 : (xs : List OrderItem) → AreNonneg xs → all_units xs < 2 ^ 31 → AreInt32 xs
small-AreInt32 [] h small = tt
small-AreInt32 (x ∷ xs) h small = (ground arith, small-AreInt32 xs h.1 (omega arith))

-- The items of each product that has any.
abbrev listed : List OrderItem → Option (List OrderItem)
listed [] = none
listed (x ∷ xs) = some (x ∷ xs)

listed_lem : (xs : List OrderItem) → entry xs ≡ Option.map of_items (listed xs)
listed_lem [] = refl
listed_lem (x ∷ xs) = refl

listed-IsBounded :
    (params : List CreateOrder)
    → IsRegular params
    → IsBounded (λ p. listed (of_product p (requested params)))
listed-IsBounded params r p xs e =
    go (of_product p (requested params)) e (AreNonneg-of_product p (requested params) r.nonneg)
      (omega (arith, of_product-le p (requested params), r.small))
  where
    go :
        (ys : List OrderItem)
        → listed ys ≡ some xs
        → AreNonneg ys
        → all_units ys < 2 ^ 31
        → AreNonneg xs × (all_units xs < 2 ^ 31)
    go [] h nonneg small = cc
    go (y ∷ ys) h nonneg small = ground arith

Option-map_self : {A : Type 0} (o : Option A) → Option.map (λ x. x) o ≡ o
Option-map_self none = refl
Option-map_self (some x) = refl

after_products_other :
    (p : ℕ) (products : List Product) (a : Listing)
    → All (λ other. other.id ≢ p) products
    → after_products products a p ≡ a p
after_products_other p [] a others = refl
after_products_other p (product ∷ products) a others =
    ground (arith, others.0, after_products_other p products (after_product product a) others.1)

allotted_hit :
    (p : ℕ) (product : Product) (products : List Product)
    → (p == product.id) ≡ true
    → (o : Option (List OrderItem))
    → (if p == product.id then Option.map (fit (stock product)) o else o)
      ≡ Option.map (allotted (product ∷ products) p) o
allotted_hit p product products same none = ground arith
allotted_hit p product products same (some xs) = ground arith

allotted_miss :
    (p : ℕ) (product : Product) (products : List Product)
    → (p == product.id) ≡ false
    → (o : Option (List OrderItem))
    → Option.map
        (allotted products p)
        (if p == product.id then Option.map (fit (stock product)) o else o)
      ≡ Option.map (allotted (product ∷ products) p) o
allotted_miss p product products other none = ground arith
allotted_miss p product products other (some xs) = ground arith

after_products-find :
    (p : ℕ) (products : List Product) (a : Listing)
    → AreKeyed products
    → after_products products a p ≡ Option.map (allotted products p) (a p)
after_products-find p [] a keyed = sym (Option-map_self (a p))
after_products-find p (product ∷ products) a keyed = elim (Bool-cases (p == product.id)) [
  | inl same ↦
      after_products_other p products (after_product product a) (
        subst (λ k. All (λ other. other.id ≢ k) products) (sym ((==_iff p product.id).0 same))
          keyed.0)
      ∙ allotted_hit p product products same (a p)
  | inr other ↦
      after_products-find p products (after_product product a) keyed.1
      ∙ allotted_miss p product products other (a p)
]

Option-map-entry :
    (g : List OrderItem → List OrderItem) (xs : List OrderItem)
    → Option.map of_items (Option.map g (listed xs))
      ≡ Option.map (λ e. of_items (g e.items)) (entry xs)
Option-map-entry g [] = refl
Option-map-entry g (x ∷ xs) = refl

-- For a regular batch and for products with distinct identifiers and stocks that are not negative,
-- merging and checking end without a panic. Afterwards the entry of each requested product holds,
-- if the product was read, the longest first part of its requests that the stock covers, and else
-- all of them, with the sum of their quantities; each order is left with as many items as name it
-- in the merged map; and but for their items the orders are the first requests of their identifiers.
pub check_allots :
    (products : List Product) (params : List CreateOrder)
    → All IsStocked products
    → AreKeyed products
    → IsRegular params
    → (m : Maps) × (checked products params ≡ ok m)
      × ((p : ℕ)
          → lookup p m.map_merged_order_item
            ≡ Option.map
                (λ e. of_items (allotted products p e.items))
                (entry (of_product p (requested params))))
      × IsBalanced m
      × ((o : ℕ)
          → Option.map strip (lookup o m.map_order) ≡ Option.map strip (first_order o params))
check_allots products params stocked keyed r =
    let (m, ran, holds, balanced, same) =
      check_decrease_quantity_lem products (λ p. listed (of_product p (requested params)))
        (record {
          map_merged_order_item = (merge_order_items params).map_merged_order_item;
          map_order = (merge_order_items params).map_order;
        })
        stocked (listed-IsBounded params r)
        (λ p.
          merge_order_items-lookup p params (small-AreInt32 (requested params) r.nonneg r.small)
          ∙ listed_lem (of_product p (requested params)))
        (λ o order e. merge_order_items-order_count o order params r.well_formed e) in
    (
      m,
      ran,
      λ p.
          holds p
          ∙ ap (Option.map of_items)
              (after_products-find p products (λ k. listed (of_product k (requested params))) keyed)
          ∙ Option-map-entry (allotted products p) (of_product p (requested params)),
      balanced,
      λ o. same o ∙ ap (Option.map strip) (merge_order_items-map_order o params),
    )
