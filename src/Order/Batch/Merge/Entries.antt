-- ===== src/Order/Batch/Merge/Entries.antt =====
-- What mergeOrderItems collects for each product and each order.
use hedonify.Prelude.{
  ℕ, ◌≡◌, refl, sym, List, [], ◌∷◌, ◌++◌, Option, none, some, arith, ◌==◌, select-append, add32,
  wrap32, wrap32_self, add32_wrap, IsInt32, Bool-cases, inl, inr, false, subst, ==_iff,
  All-append_left, All-append_right,
}
use mathlib.Core.List.{append_assoc, append-nil}
use hedonify.Prelude.Map.{lookup, lookup-insert}
use hedonify.Order.Request.{OrderItem, CreateOrder}
use hedonify.Order.Batch.Items.{requested, of_product, total, total-append, total_one, AreInt32}
use hedonify.Order.Batch.Merge.{
  MergedOrderItem, Merge, merge_item, merge_items, merge_id, merge_orders, empty_merge,
  merge_order_items,
}

-- The entry that a product's requested items amount to.
abbrev pub entry : List OrderItem → Option MergedOrderItem
entry [] = none
entry (x ∷ xs) = some (record { items = x ∷ xs; ordered_item_quantity = wrap32 (total (x ∷ xs)) })

total_snoc :
    (xs : List OrderItem) (i : OrderItem)
    → wrap32 (total (xs ++ i ∷ [])) ≡ add32 (wrap32 (total xs)) i.quantity
total_snoc xs i =
    rw (total-append xs (i ∷ []), total_one i) (sym (add32_wrap (total xs) i.quantity))

merge_item_hit :
    (i : OrderItem) (xs : List OrderItem) (m : Merge)
    → IsInt32 i.quantity
    → lookup i.product_id m.map_merged_order_item ≡ entry xs
    → lookup i.product_id (merge_item i m).map_merged_order_item ≡ entry (xs ++ i ∷ [])
unfolding merge_item
merge_item_hit i [] m q t = ground (
  arith,
  lookup-insert i.product_id i.product_id
      (record { items = i ∷ []; ordered_item_quantity = i.quantity }) m.map_merged_order_item,
  wrap32_self i.quantity q,
  total_one i,
)
merge_item_hit i (x ∷ xs) m q t = grind (arith, lookup-insert, total_snoc (x ∷ xs) i)

merge_item_miss :
    (p : ℕ) (i : OrderItem) (m : Merge)
    → (p == i.product_id) ≡ false
    → lookup p (merge_item i m).map_merged_order_item ≡ lookup p m.map_merged_order_item
unfolding merge_item
merge_item_miss p i m miss = grind (arith, lookup-insert)

module _ (p : ℕ) where
  abbrev Tracks : List OrderItem → Merge → Type 0
  Tracks seen m = lookup p m.map_merged_order_item ≡ entry (of_product p seen)

  merge_item-Tracks :
      (seen : List OrderItem) (i : OrderItem) (m : Merge)
      → IsInt32 i.quantity
      → Tracks seen m
      → Tracks (seen ++ i ∷ []) (merge_item i m)
  merge_item-Tracks seen i m q t = elim (Bool-cases (p == i.product_id)) [
    | inl hit ↦
        rw (select-append (λ item. p == item.product_id) seen (i ∷ []), hit)
          (subst
            (λ k.
              lookup k (merge_item i m).map_merged_order_item ≡ entry (of_product p seen ++ i ∷ []))
            (sym ((==_iff p i.product_id).0 hit))
            (merge_item_hit i (of_product p seen) m q (
              subst (λ k. lookup k m.map_merged_order_item ≡ entry (of_product p seen))
                ((==_iff p i.product_id).0 hit) t)))
    | inr miss ↦
        rw
          (
            select-append (λ item. p == item.product_id) seen (i ∷ []),
            miss,
            append-nil (of_product p seen),
            merge_item_miss p i m miss,
          )
          t
  ]

  merge_items-Tracks :
      (seen items : List OrderItem) (m : Merge)
      → AreInt32 items
      → Tracks seen m
      → Tracks (seen ++ items) (merge_items items m)
  unfolding merge_items
  merge_items-Tracks seen [] m q t = rw (append-nil seen) t
  merge_items-Tracks seen (i ∷ items) m q t = rw (← append_assoc seen (i ∷ []) items) (
      merge_items-Tracks (seen ++ i ∷ []) items (merge_item i m) q.1
        (merge_item-Tracks seen i m q.0 t))

  merge_orders-Tracks :
      (seen : List OrderItem) (params : List CreateOrder) (m : Merge)
      → AreInt32 (requested params)
      → Tracks seen m
      → Tracks (seen ++ requested params) (merge_orders params m)
  unfolding merge_orders merge_id
  merge_orders-Tracks seen [] m q t = rw (append-nil seen) t
  merge_orders-Tracks seen (order ∷ params) m q t =
      rw (← append_assoc seen order.order_items (requested params)) (
        merge_orders-Tracks (seen ++ order.order_items) params
          (merge_items order.order_items (merge_id order m))
          (All-append_right (λ item. IsInt32 item.quantity) order.order_items (requested params) q)
          (merge_items-Tracks seen order.order_items (merge_id order m)
            (All-append_left (λ item. IsInt32 item.quantity) order.order_items (requested params) q)
            t))

-- For every product the merged map holds exactly the batch's items of that product, in the order
-- of arrival, with the int32 sum of their quantities; a product that nobody asks for has no entry.
-- The condition is that every quantity is an int32.
pub merge_order_items-lookup :
    (p : ℕ) (params : List CreateOrder)
    → AreInt32 (requested params)
    → lookup p (merge_order_items params).map_merged_order_item
      ≡ entry (of_product p (requested params))
unfolding merge_order_items
merge_order_items-lookup p params q = merge_orders-Tracks p [] params empty_merge q refl
