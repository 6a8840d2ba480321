-- ===== src/Order/Batch/Merge/Orders.antt =====
-- The orders that mergeOrderItems collects, and the numbers of their items.
use hedonify.Prelude.{
  ℕ, ◌+◌, ◌≡◌, ◌≢◌, refl, sym, ap, ◌∙◌, inl, inr, List, [], ◌∷◌, ◌++◌, Option, none, some, arith,
  ◌==◌, ==_iff, if◌then◌else◌, Bool-cases, Option-cases, All, find_first, length, sum_of-append,
  add32,
}
use hedonify.Prelude.Map.{
  Map, lookup, lookup-insert, sum_values, sum_values-insert, sum_values-insert_new,
}
use hedonify.Order.Request.{OrderItem, CreateOrder}
use hedonify.Order.Batch.Items.{requested, count_order}
use hedonify.Order.Batch.Merge.{
  MergedOrderItem, Merge, merge_item, merge_items, merge_id, merge_orders, empty_merge,
  merge_order_items,
}

-- How many items of the merged map name an order.
abbrev pub order_count : ℕ → Map MergedOrderItem → ℕ
order_count o = sum_values (λ merged. count_order o merged.items)

-- Each item names the order that it stands in, and no order comes twice.
abbrev pub IsWellFormed : List CreateOrder → Type 0
IsWellFormed [] = Unit {0}
IsWellFormed (order ∷ rest) =
    All (λ item. item.order_id ≡ order.id) order.order_items
    × All (λ other. other.id ≢ order.id) rest
    × IsWellFormed rest

-- The first order of a list with an identifier.
abbrev pub first_order : ℕ → List CreateOrder → Option CreateOrder
first_order o = find_first (λ order. o == order.id)

abbrev or_else : Option CreateOrder → Option CreateOrder → Option CreateOrder
or_else none b = b
or_else (some a) b = some a

merge_item-map_order : (i : OrderItem) (m : Merge) → (merge_item i m).map_order ≡ m.map_order
unfolding merge_item
merge_item-map_order i m = ground arith

merge_items-map_order :
    (items : List OrderItem) (m : Merge) → (merge_items items m).map_order ≡ m.map_order
unfolding merge_items
merge_items-map_order [] m = refl
merge_items-map_order (i ∷ items) m =
    merge_items-map_order items (merge_item i m) ∙ merge_item-map_order i m

merge_item-order_count :
    (o : ℕ) (i : OrderItem) (m : Merge)
    → order_count o (merge_item i m).map_merged_order_item
      ≡ order_count o m.map_merged_order_item + (if o == i.order_id then 1 else 0)
unfolding merge_item
merge_item-order_count o i m = elim (Option-cases (lookup i.product_id m.map_merged_order_item)) [
  | inl e ↦
      rw (e, merge_item)
        (omega (
          arith,
          sum_values-insert_new (λ merged. count_order o merged.items) i.product_id
              (record { items = i ∷ []; ordered_item_quantity = i.quantity })
              m.map_merged_order_item e,
        ))
  | inr (existing, e) ↦
      rw (e, merge_item)
        (omega (
          arith,
          sum_values-insert (λ merged. count_order o merged.items) i.product_id existing
              (record {
                items = existing.items ++ i ∷ [];
                ordered_item_quantity = add32 existing.ordered_item_quantity i.quantity;
              })
              m.map_merged_order_item e,
          sum_of-append (λ item. if o == item.order_id then 1 else 0) existing.items (i ∷ []),
        ))
]

merge_items-order_count :
    (o : ℕ) (items : List OrderItem) (m : Merge)
    → order_count o (merge_items items m).map_merged_order_item
      ≡ order_count o m.map_merged_order_item + count_order o items
unfolding merge_items
merge_items-order_count o [] m = omega arith
merge_items-order_count o (i ∷ items) m =
    omega (arith, merge_items-order_count o items (merge_item i m), merge_item-order_count o i m)

merge_orders-order_count :
    (o : ℕ) (params : List CreateOrder) (m : Merge)
    → order_count o (merge_orders params m).map_merged_order_item
      ≡ order_count o m.map_merged_order_item + count_order o (requested params)
unfolding merge_orders merge_id
merge_orders-order_count o [] m = omega arith
merge_orders-order_count o (order ∷ params) m = omega (
  arith,
  merge_orders-order_count o params (merge_items order.order_items (merge_id order m)),
  merge_items-order_count o order.order_items (merge_id order m),
  sum_of-append (λ item. if o == item.order_id then 1 else 0) order.order_items (requested params),
)

merge_id-lookup :
    (o : ℕ) (order : CreateOrder) (m : Merge)
    → lookup o (merge_id order m).map_order
      ≡ or_else (lookup o m.map_order) (if o == order.id then some order else none)
unfolding merge_id
merge_id-lookup o order m = elim (Bool-cases (o == order.id)) [
  | inl same ↦ ground (
    arith,
    lookup-insert o order.id order m.map_order,
    ap (λ k. lookup k m.map_order) ((==_iff o order.id).0 same),
  )
  | inr other ↦ ground (arith, lookup-insert o order.id order m.map_order)
]

merge_orders-lookup :
    (o : ℕ) (params : List CreateOrder) (m : Merge)
    → lookup o (merge_orders params m).map_order
      ≡ or_else (lookup o m.map_order) (first_order o params)
unfolding merge_orders
merge_orders-lookup o [] m = ground arith
merge_orders-lookup o (order ∷ params) m = ground (
  arith,
  merge_orders-lookup o params (merge_items order.order_items (merge_id order m)),
  merge_items-map_order order.order_items (merge_id order m),
  merge_id-lookup o order m,
)

-- The map of orders has the first request with each identifier.
pub merge_order_items-map_order :
    (o : ℕ) (params : List CreateOrder)
    → lookup o (merge_order_items params).map_order ≡ first_order o params
unfolding merge_order_items
merge_order_items-map_order o params = merge_orders-lookup o params empty_merge

count_order_own :
    (o k : ℕ) (items : List OrderItem)
    → All (λ item. item.order_id ≡ k) items
    → count_order o items ≡ (if o == k then length items else 0)
count_order_own o k [] own = ground arith
count_order_own o k (i ∷ items) own = ground (arith, own.0, count_order_own o k items own.1)

-- An order that is not among the requests is named by no item.
count_order_others :
    (o : ℕ) (params : List CreateOrder)
    → IsWellFormed params
    → All (λ other. other.id ≢ o) params
    → count_order o (requested params) ≡ 0
count_order_others o [] valid others = refl
count_order_others o (order ∷ params) valid others = ground (
  arith,
  sum_of-append (λ item. if o == item.order_id then 1 else 0) order.order_items (requested params),
  count_order_own o order.id order.order_items valid.0,
  count_order_others o params valid.2 others.1,
  others.0,
)

-- In a well-formed batch an order is named by its own items and no others.
first_order-count_order :
    (o : ℕ) (order : CreateOrder) (params : List CreateOrder)
    → IsWellFormed params
    → first_order o params ≡ some order
    → length order.order_items ≡ count_order o (requested params)
first_order-count_order o order [] valid e = cc
first_order-count_order o order (first ∷ params) valid e = elim (Bool-cases (o == first.id)) [
  | inl same ↦ ground (
    arith,
    sum_of-append (λ item. if o == item.order_id then 1 else 0) first.order_items
        (requested params),
    count_order_own o first.id first.order_items valid.0,
    count_order_others first.id params valid.2 valid.1,
    ap (λ k. count_order k (requested params)) ((==_iff o first.id).0 same),
  )
  | inr other ↦ ground (
    arith,
    sum_of-append (λ item. if o == item.order_id then 1 else 0) first.order_items
        (requested params),
    count_order_own o first.id first.order_items valid.0,
    first_order-count_order o order params valid.2,
  )
]

-- So the merged maps of a well-formed batch agree: each order has as many items as name it.
pub merge_order_items-order_count :
    (o : ℕ) (order : CreateOrder) (params : List CreateOrder)
    → IsWellFormed params
    → lookup o (merge_order_items params).map_order ≡ some order
    → length order.order_items ≡ order_count o (merge_order_items params).map_merged_order_item
unfolding merge_order_items
merge_order_items-order_count o order params valid e = omega (
  arith,
  first_order-count_order o order params valid (sym (merge_order_items-map_order o params) ∙ e),
  merge_orders-order_count o params empty_merge,
)
