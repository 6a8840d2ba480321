-- ===== src/Order/Batch/Check/Wrap.antt =====
-- checkDecreaseQuantity where the int32 sum of a product's requests wraps.
use hedonify.Prelude.{
  ℕ, suc, ℤ, ◌+◌, ◌*◌, ◌<◌, ◌≤◌, ◌^◌, ◌≡◌, refl, ap, pos, List, [], ◌∷◌, some, false, arith, length,
  ltb_ℤ, sub32, wrap32, ◌-ℤ◌, All, ok,
}
use hedonify.Prelude.Map.{Map, lookup, insert}
use hedonify.Repository.Models.{Product}
use hedonify.Order.Request.{OrderItem, CreateOrder}
use hedonify.Order.Batch.Items.{requested, of_product, total, AreInt32}
use hedonify.Order.Batch.Merge.{MergedOrderItem, merge_order_items}
use hedonify.Order.Batch.Merge.Entries.{entry, merge_order_items-lookup}
use hedonify.Order.Batch.Check.{Maps, check_loop, check_product, check_decrease_quantity}
use hedonify.Order.Batch.Check.Products.{IsStocked, stock}
use hedonify.Order.Batch.Check.Allotment.{checked}

-- The quantities sum to no more than the stock, but for a number of times 2^32.
pub record FitsModulo (product : Product) (xs : List OrderItem) : Type 0 where
  pub part : ℕ
  pub times : ℕ
  pub sums : total xs ≡ pos (part + times * 2 ^ 32)
  pub covered : part ≤ stock product

wrapped_test :
    (s k n : ℕ)
    → s < 2 ^ 31
    → k ≤ s
    → ltb_ℤ (sub32 (pos s) (wrap32 (pos (k + n * 2 ^ 32)))) (pos 0) ≡ false
unfolding sub32 wrap32 ◌-ℤ◌
wrapped_test s k n hs hk = ground arith

insert_same : {V : Type 0} (k : ℕ) (v : V) (m : Map V) → lookup k m ≡ some v → insert k v m ≡ m
insert_same k v [] e = cc
insert_same k v ((j, w) ∷ m) e = ground (arith, insert_same k v m)

passes :
    (product : Product) (x : OrderItem) (xs : List OrderItem)
    → IsStocked product
    → FitsModulo product (x ∷ xs)
    → ltb_ℤ (sub32 product.quantity (wrap32 (total (x ∷ xs)))) (pos 0) ≡ false
passes product x xs stocked fits =
    rw (fits.sums) (ground (arith, wrapped_test (stock product) fits.part fits.times))

check_loop_keeps :
    (fuel : ℕ) (quantity : ℤ) (merged : MergedOrderItem) (orders : Map CreateOrder)
    → ltb_ℤ (sub32 quantity merged.ordered_item_quantity) (pos 0) ≡ false
    → check_loop (suc fuel) quantity merged orders ≡ ok (merged, orders)
unfolding check_loop
check_loop_keeps fuel quantity merged orders e = rw (e, check_loop) refl

check_product_keeps :
    (product : Product) (xs : List OrderItem) (m : Maps)
    → IsStocked product
    → FitsModulo product xs
    → lookup product.id m.map_merged_order_item ≡ entry xs
    → check_product product m ≡ ok m
unfolding check_product
check_product_keeps product [] m stocked fits e = rw (e, check_product) refl
check_product_keeps product (x ∷ xs) m stocked fits e =
    rw
      (
        e,
        check_product,
        check_loop_keeps (length xs) product.quantity
            (record { items = x ∷ xs; ordered_item_quantity = wrap32 (total (x ∷ xs)) }) m.map_order
            (passes product x xs stocked fits),
      )
      (ap (λ entries. ok (record { map_merged_order_item = entries; map_order = m.map_order }))
        (insert_same product.id _ m.map_merged_order_item e))

check_keeps :
    (products : List Product) (of : ℕ → List OrderItem) (m : Maps)
    → All IsStocked products
    → All (λ product. FitsModulo product (of product.id)) products
    → ((p : ℕ) → lookup p m.map_merged_order_item ≡ entry (of p))
    → check_decrease_quantity products m ≡ ok m
unfolding check_decrease_quantity
check_keeps [] of m stocked fits e = refl
check_keeps (product ∷ products) of m stocked fits e =
    rw (check_product_keeps product (of product.id) m stocked.0 fits.0 (e product.id))
      (check_keeps products of m stocked.1 fits.1 e)

-- Where the requested quantities are int32 and, for each product that was read, sum to some number
-- of times 2^32 above a number that its stock covers, merging and checking keep every item of every
-- order, however far above the stock the true sums are.
pub checked-FitsModulo :
    (products : List Product) (params : List CreateOrder)
    → AreInt32 (requested params)
    → All IsStocked products
    → All (λ product. FitsModulo product (of_product product.id (requested params))) products
    → checked products params
      ≡ ok (record {
        map_merged_order_item = (merge_order_items params).map_merged_order_item;
        map_order = (merge_order_items params).map_order;
      })
checked-FitsModulo products params int32 stocked fits =
    check_keeps products (λ p. of_product p (requested params)) _ stocked fits
      (λ p. merge_order_items-lookup p params int32)
