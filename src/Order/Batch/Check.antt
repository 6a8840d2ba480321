-- ===== src/Order/Batch/Check.antt =====
-- checkDecreaseQuantity of order/internal/service/order.go: what does not fit into the stock goes.
pub mod Fit
pub mod Drop
pub mod Loop
pub mod Products
pub mod Allotment
pub mod Wrap
use hedonify.Prelude.{
  ℕ, zero, suc, ℤ, pos, List, [], ◌∷◌, none, some, true, false, ltb_ℤ, sub32, if◌then◌else◌, last?,
  drop_last, length, Outcome, ok, panic, ◌>>=◌,
}
use hedonify.Prelude.Map.{Map, lookup, insert}
use hedonify.Repository.Models.{Product}
use hedonify.Order.Request.{OrderItem, CreateOrder}
use hedonify.Order.Batch.Merge.{MergedOrderItem}

-- `order.OrderItems[:len(order.OrderItems)-1]`, which panics on an order with no items left.
unfoldable pub shorten : CreateOrder → Outcome CreateOrder
shorten order = elim order.order_items [
  | [] ↦ panic
  | x ∷ xs ↦ ok (record order { order_items = drop_last (x ∷ xs) })
]

-- The update of `mapOrder` when an item goes.
unfoldable pub drop_order_item : ℕ → Map CreateOrder → Outcome (Map CreateOrder)
drop_order_item order_id map_order = elim (lookup order_id map_order) [
  | none ↦ ok map_order
  | some order ↦ shorten order >>= λ order'. ok (insert order_id order' map_order)
]

-- The inner loop. Each round takes an item away, so as many rounds as there are items suffice.
unfoldable pub check_loop :
    ℕ → ℤ → MergedOrderItem → Map CreateOrder → Outcome (MergedOrderItem × Map CreateOrder)
check_loop zero quantity merged map_order = ok (merged, map_order)
check_loop (suc fuel) quantity merged map_order =
    elim (ltb_ℤ (sub32 quantity merged.ordered_item_quantity) (pos 0)) [
      | false ↦ ok (merged, map_order)
      | true ↦ elim (last? merged.items) [
        | none ↦ ok (merged, map_order)
        | some item ↦ drop_order_item item.order_id map_order >>= λ map_order'.
            check_loop fuel quantity
              (record {
                items = drop_last merged.items;
                ordered_item_quantity = sub32 merged.ordered_item_quantity item.quantity;
              })
              map_order'
      ]
    ]

-- Both maps.
pub record Maps : Type 0 where
  pub map_merged_order_item : Map MergedOrderItem
  pub map_order : Map CreateOrder

-- The body of the outer loop.
unfoldable pub check_product : Product → Maps → Outcome Maps
check_product product m = elim (lookup product.id m.map_merged_order_item) [
  | none ↦ ok m
  | some merged ↦ check_loop (length merged.items) product.quantity merged m.map_order >>= λ r.
      ok (record {
        map_merged_order_item = insert product.id r.0 m.map_merged_order_item;
        map_order = r.1;
      })
]

unfoldable pub check_decrease_quantity : List Product → Maps → Outcome Maps
check_decrease_quantity [] m = ok m
check_decrease_quantity (product ∷ products) m =
    check_product product m >>= λ m'. check_decrease_quantity products m'
