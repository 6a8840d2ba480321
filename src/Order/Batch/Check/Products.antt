-- ===== src/Order/Batch/Check/Products.antt =====
-- The outer loop of checkDecreaseQuantity: each product that was read allots its stock.
use hedonify.Prelude.{
  ℕ, ◌-◌, ◌<◌, ◌^◌, ◌≡◌, refl, ap, ◌∙◌, inl, inr, pos, ◌≤ℤ◌, pos_part, List, [], ◌∷◌, arith, ◌==◌,
  ==_iff, if◌then◌else◌, Bool-cases, Option-cases, Option, none, some, length, All, ok,
}
use mathlib.Core.Option
use hedonify.Prelude.Map.{lookup, insert, lookup-insert, sum_values-insert, lookup-le-sum_values}
use hedonify.Repository.Models.{Product}
use hedonify.Order.Request.{OrderItem, CreateOrder}
use hedonify.Order.Batch.Items.{count_order}
use hedonify.Order.Batch.Merge.Orders.{order_count}
use hedonify.Order.Batch.Check.Fit.{AreNonneg, all_units, fit, fit-AreNonneg, fit-le_all}
use hedonify.Order.Batch.Check.Drop.{Agree, SameOrders}
use hedonify.Order.Batch.Check.Loop.{of_items, check_loop-Leaves}
use hedonify.Order.Batch.Check.{Maps, check_product, check_decrease_quantity}

-- Each order has as many items as name it in the merged map.
abbrev pub IsBalanced : Maps → Type 0
IsBalanced m =
    (o : ℕ) (order : CreateOrder)
    → lookup o m.map_order ≡ some order
    → length order.order_items ≡ order_count o m.map_merged_order_item

-- The items of each product that has an entry.
abbrev pub Listing : Type 0
Listing = ℕ → Option (List OrderItem)

abbrev Holds : Listing → Maps → Type 0
Holds a m = (p : ℕ) → lookup p m.map_merged_order_item ≡ Option.map of_items (a p)

-- No product's requests are negative or sum to more than an int32.
abbrev pub IsBounded : Listing → Type 0
IsBounded a = (p : ℕ) (xs : List OrderItem) → a p ≡ some xs → AreNonneg xs × (all_units xs < 2 ^ 31)

-- A stock that is an int32 and not negative.
abbrev pub IsStocked : Product → Type 0
IsStocked product = (pos 0 ≤ℤ product.quantity) × (product.quantity ≤ℤ pos (2 ^ 31 - 1))

abbrev pub stock : Product → ℕ
stock product = pos_part product.quantity

abbrev pub after_product : Product → Listing → Listing
after_product product a p = if p == product.id then Option.map (fit (stock product)) (a p) else a p

quantity-stock : (product : Product) → IsStocked product → product.quantity ≡ pos (stock product)
quantity-stock product h = ground arith

stock-lt : (product : Product) → IsStocked product → stock product < 2 ^ 31
stock-lt product h = ground arith

after_product-IsBounded :
    (product : Product) (a : Listing) → IsBounded a → IsBounded (after_product product a)
after_product-IsBounded product a bounded p xs e = elim (Option-cases (a p)) [
  | inl none' ↦ ground (arith, none')
  | inr (ys, some') ↦ ground (
    arith,
    some',
    bounded p ys some',
    fit-AreNonneg (stock product) ys (bounded p ys some').0,
    fit-le_all (stock product) ys,
  )
]

abbrev Checks : Product → Listing → Maps → Type 0
Checks product a m =
    (m' : Maps) × (check_product product m ≡ ok m')
    × Holds (after_product product a) m'
    × IsBalanced m'
    × SameOrders m.map_order m'.map_order

check_absent :
    (product : Product) (a : Listing) (m : Maps)
    → a product.id ≡ none
    → Holds a m
    → IsBalanced m
    → Checks product a m
unfolding check_product
check_absent product a m e holds balanced = (
  m,
  rw (holds product.id ∙ ap (Option.map of_items) e, check_product) refl,
  kept,
  balanced,
  λ o. refl,
)
  where
    kept : Holds (after_product product a) m
    kept p = elim (Bool-cases (p == product.id)) [
      | inl hit ↦ ground (arith, hit, holds p, e, ap a ((==_iff p product.id).0 hit))
      | inr miss ↦ rw miss (holds p)
    ]

inserted-IsBalanced :
    (k : ℕ) (xs ys : List OrderItem) (m m' : Maps)
    → lookup k m.map_merged_order_item ≡ some (of_items xs)
    → m'.map_merged_order_item ≡ insert k (of_items ys) m.map_merged_order_item
    → Agree (λ o. order_count o m.map_merged_order_item - count_order o xs) ys m'.map_order
    → IsBalanced m'
inserted-IsBalanced k xs ys m m' e now agree o order h = rw now (
    omega (
      arith,
      agree o order h,
      sum_values-insert (λ merged. count_order o merged.items) k (of_items xs) (of_items ys)
          m.map_merged_order_item e,
      lookup-le-sum_values (λ merged. count_order o merged.items) k (of_items xs)
          m.map_merged_order_item e,
    ))

inserted-Holds :
    (product : Product) (a : Listing) (xs : List OrderItem) (m m' : Maps)
    → a product.id ≡ some xs
    → Holds a m
    → m'.map_merged_order_item
      ≡ insert product.id (of_items (fit (stock product) xs)) m.map_merged_order_item
    → Holds (after_product product a) m'
inserted-Holds product a xs m m' e holds now p =
    rw (now, lookup-insert p product.id (of_items (fit (stock product) xs)) m.map_merged_order_item)
      (elim (Bool-cases (p == product.id)) [
        | inl hit ↦ rw (hit, (==_iff p product.id).0 hit, e) refl
        | inr miss ↦ rw miss (holds p)
      ])

before-Agree :
    (k : ℕ) (xs : List OrderItem) (m : Maps)
    → lookup k m.map_merged_order_item ≡ some (of_items xs)
    → IsBalanced m
    → Agree (λ o. order_count o m.map_merged_order_item - count_order o xs) xs m.map_order
before-Agree k xs m e balanced o order h = omega (
  arith,
  balanced o order h,
  lookup-le-sum_values (λ merged. count_order o merged.items) k (of_items xs)
      m.map_merged_order_item e,
)

check_present :
    (product : Product) (a : Listing) (xs : List OrderItem) (m : Maps)
    → IsStocked product
    → a product.id ≡ some xs
    → AreNonneg xs × (all_units xs < 2 ^ 31)
    → Holds a m
    → IsBalanced m
    → Checks product a m
unfolding check_product
check_present product a xs m stocked e small holds balanced =
    let found : lookup product.id m.map_merged_order_item ≡ some (of_items xs) =
      holds product.id ∙ ap (Option.map of_items) e in
    let (orders, ran, agree, same) =
      check_loop-Leaves (λ o. order_count o m.map_merged_order_item - count_order o xs)
        (stock product) (stock-lt product stocked) (length xs) xs m.map_order (omega arith) small.1
        small.0 (before-Agree product.id xs m found balanced) in
    let m' : Maps = record {
      map_merged_order_item =
          insert product.id (of_items (fit (stock product) xs)) m.map_merged_order_item;
      map_order = orders;
    } in
    (
      m',
      rw (found, check_product) (rw (quantity-stock product stocked, ran) refl),
      inserted-Holds product a xs m m' e holds refl,
      inserted-IsBalanced product.id xs (fit (stock product) xs) m m' found refl agree,
      same,
    )

check_product-Checks :
    (product : Product) (a : Listing) (m : Maps)
    → IsStocked product
    → IsBounded a
    → Holds a m
    → IsBalanced m
    → Checks product a m
check_product-Checks product a m stocked bounded holds balanced =
    elim (Option-cases (a product.id)) [
      | inl e ↦ check_absent product a m e holds balanced
      | inr (xs, e) ↦
          check_present product a xs m stocked e (bounded product.id xs e) holds balanced
    ]

abbrev pub after_products : List Product → Listing → Listing
after_products [] a = a
after_products (product ∷ products) a = after_products products (after_product product a)

pub check_decrease_quantity_lem :
    (products : List Product) (a : Listing) (m : Maps)
    → All IsStocked products
    → IsBounded a
    → Holds a m
    → IsBalanced m
    → (m' : Maps) × (check_decrease_quantity products m ≡ ok m')
      × Holds (after_products products a) m'
      × IsBalanced m'
      × SameOrders m.map_order m'.map_order
unfolding check_decrease_quantity
check_decrease_quantity_lem [] a m stocked bounded holds balanced =
    (m, refl, holds, balanced, λ o. refl)
check_decrease_quantity_lem (product ∷ products) a m stocked bounded holds balanced =
    let (m', ran, holds', balanced', same) =
      check_product-Checks product a m stocked.0 bounded holds balanced in
    let (m'', ran', holds'', balanced'', same') =
      check_decrease_quantity_lem products (after_product product a) m' stocked.1
        (after_product-IsBounded product a bounded) holds' balanced' in
    (m'', rw ran ran', holds'', balanced'', λ o. same' o ∙ same o)
