-- ===== src/Order/Batch/Merge.antt =====
-- mergeOrderItems of order/internal/service/order.go: the requested items of a batch by product.
pub mod Entries
pub mod Orders
use hedonify.Prelude.{
  ℕ, ℤ, ◌≡◌, List, [], ◌∷◌, ◌++◌, none, some, arith, ◌==◌, select, concat_map, add32,
}
use hedonify.Prelude.Map.{Map, lookup, insert}
use hedonify.Order.Request.{OrderItem, CreateOrder}

pub record MergedOrderItem : Type 0 where
  pub items : List OrderItem
  pub ordered_item_quantity : ℤ

-- The variables of the loops, which are also the results.
pub record Merge : Type 0 where
  pub map_merged_order_item : Map MergedOrderItem
  pub map_order : Map CreateOrder
  pub product_ids : List ℕ
  pub order_ids : List ℕ

-- The body of the inner loop.
unfoldable pub merge_item : OrderItem → Merge → Merge
merge_item order_item m = elim (lookup order_item.product_id m.map_merged_order_item) [
  | none ↦ record m {
    map_merged_order_item =
        insert order_item.product_id
          (record { items = order_item ∷ []; ordered_item_quantity = order_item.quantity })
          m.map_merged_order_item;
    product_ids = m.product_ids ++ order_item.product_id ∷ [];
  }
  | some existing ↦ record m {
    map_merged_order_item =
        insert order_item.product_id
          (record {
            items = existing.items ++ order_item ∷ [];
            ordered_item_quantity = add32 existing.ordered_item_quantity order_item.quantity;
          })
          m.map_merged_order_item;
  }
]

unfoldable pub merge_items : List OrderItem → Merge → Merge
merge_items [] m = m
merge_items (order_item ∷ rest) m = merge_items rest (merge_item order_item m)

-- The head of the outer loop's body: the order itself.
unfoldable pub merge_id : CreateOrder → Merge → Merge
merge_id order m = record m {
  order_ids = m.order_ids ++ order.id ∷ [];
  map_order = elim (lookup order.id m.map_order) [
    | none ↦ insert order.id order m.map_order
    | some _ ↦ m.map_order
  ];
}

unfoldable pub merge_orders : List CreateOrder → Merge → Merge
merge_orders [] m = m
merge_orders (order ∷ rest) m = merge_orders rest (merge_items order.order_items (merge_id order m))

abbrev pub empty_merge : Merge
empty_merge = record {
  map_merged_order_item = [];
  map_order = [];
  product_ids = [];
  order_ids = [];
}

unfoldable pub merge_order_items : List CreateOrder → Merge
merge_order_items params = merge_orders params empty_merge
