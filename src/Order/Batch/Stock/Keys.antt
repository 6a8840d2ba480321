-- ===== src/Order/Batch/Stock/Keys.antt =====
-- The keys of the merged map and the list of product identifiers.
use hedonify.Prelude.{
  ℕ, ◌≡◌, refl, sym, ap, ◌∙◌, inl, inr, Bool, true, false, ◌||◌, List, [], ◌∷◌, ◌++◌, Option, none,
  some, arith, ◌==◌, ==_iff, Bool-cases, Option-cases, elem, ok, panic, Outcome, ◌>>=◌, add32,
  subst, length,
}
use hedonify.Prelude.Map.{Map, lookup, insert, lookup-insert}
use hedonify.Prelude.Map.Keyed.{IsKeyed, insert-IsKeyed}
use hedonify.Repository.Models.{Product}
use hedonify.Order.Request.{OrderItem, CreateOrder}
use hedonify.Order.Batch.Merge.{
  MergedOrderItem, Merge, merge_item, merge_items, merge_id, merge_orders, empty_merge,
  merge_order_items,
}
use hedonify.Order.Batch.Check.{Maps, check_loop, check_product, check_decrease_quantity}

abbrev pub has {ℓ} : {A : Type ℓ} → Option A → Bool
has none = false
has (some a) = true

elem-append_one : (a b : ℕ) (xs : List ℕ) → elem a (xs ++ b ∷ []) ≡ (elem a xs || (a == b))
elem-append_one a b [] = ground arith
elem-append_one a b (x ∷ xs) = ground (arith, elem-append_one a b xs)

-- Distinct keys, and the identifiers of the keys.
pub record IsIndexed (m : Merge) : Type 0 where
  pub keyed : IsKeyed m.map_merged_order_item
  pub listed : (p : ℕ) → elem p m.product_ids ≡ has (lookup p m.map_merged_order_item)

merge_item-listed :
    (i : OrderItem) (m : Merge)
    → ((p : ℕ) → elem p m.product_ids ≡ has (lookup p m.map_merged_order_item))
    → (p : ℕ)
    → elem p (merge_item i m).product_ids ≡ has (lookup p (merge_item i m).map_merged_order_item)
unfolding merge_item
merge_item-listed i m h p = elim (Option-cases (lookup i.product_id m.map_merged_order_item)) [
  | inl e ↦
      rw (e, merge_item)
        (rw
          (
            elem-append_one p i.product_id m.product_ids,
            lookup-insert p i.product_id
                (record { items = i ∷ []; ordered_item_quantity = i.quantity })
                m.map_merged_order_item,
          )
          (ground (arith, h p)))
  | inr (existing, e) ↦
      rw (e, merge_item)
        (rw
          (lookup-insert p i.product_id
            (record {
              items = existing.items ++ i ∷ [];
              ordered_item_quantity = add32 existing.ordered_item_quantity i.quantity;
            })
            m.map_merged_order_item)
          (elim (Bool-cases (p == i.product_id)) [
            | inl same ↦ rw same (
                h p
                ∙ ap has (
                    ap (λ k. lookup k m.map_merged_order_item) ((==_iff p i.product_id).0 same)
                    ∙ e))
            | inr other ↦ rw other (h p)
          ]))
]

merge_item-IsKeyed :
    (i : OrderItem) (m : Merge)
    → IsKeyed m.map_merged_order_item
    → IsKeyed (merge_item i m).map_merged_order_item
unfolding merge_item
merge_item-IsKeyed i m h = elim (Option-cases (lookup i.product_id m.map_merged_order_item)) [
  | inl e ↦ rw (e, merge_item) (insert-IsKeyed i.product_id _ m.map_merged_order_item h)
  | inr (existing, e) ↦ rw (e, merge_item) (insert-IsKeyed i.product_id _ m.map_merged_order_item h)
]

merge_items-IsIndexed :
    (items : List OrderItem) (m : Merge) → IsIndexed m → IsIndexed (merge_items items m)
unfolding merge_items
merge_items-IsIndexed [] m h = h
merge_items-IsIndexed (i ∷ items) m h =
    merge_items-IsIndexed items (merge_item i m)
      (record { keyed = merge_item-IsKeyed i m h.keyed; listed = merge_item-listed i m h.listed })

merge_orders-IsIndexed :
    (params : List CreateOrder) (m : Merge) → IsIndexed m → IsIndexed (merge_orders params m)
unfolding merge_orders merge_id
merge_orders-IsIndexed [] m h = h
merge_orders-IsIndexed (order ∷ params) m h =
    merge_orders-IsIndexed params (merge_items order.order_items (merge_id order m)) (
      merge_items-IsIndexed order.order_items (merge_id order m)
        (record { keyed = h.keyed; listed = h.listed }))

pub merge_order_items-IsIndexed : (params : List CreateOrder) → IsIndexed (merge_order_items params)
unfolding merge_order_items
merge_order_items-IsIndexed params =
    merge_orders-IsIndexed params empty_merge (record { keyed = tt; listed = λ p. refl })

Outcome-bind :
    {A B : Type 0} (m : Outcome A) (f : A → Outcome B) {b : B}
    → (m >>= f) ≡ ok b
    → (a : A) × (m ≡ ok a) × (f a ≡ ok b)
Outcome-bind (ok a) f e = (a, refl, e)
Outcome-bind panic f e = cc

pub ok-injective : {A : Type 0} {a b : A} → ok a ≡ ok b → a ≡ b
ok-injective e = cc

check_product-IsKeyed :
    (product : Product) (m m' : Maps)
    → check_product product m ≡ ok m'
    → IsKeyed m.map_merged_order_item
    → IsKeyed m'.map_merged_order_item
unfolding check_product
check_product-IsKeyed product m m' e h =
    elim (Option-cases (lookup product.id m.map_merged_order_item)) [
      | inl absent ↦
          let ran : check_product product m ≡ ok m = rw (absent, check_product) refl in
          let same : m ≡ m' = ok-injective (sym ran ∙ e) in
          subst (λ (n : Maps). IsKeyed n.map_merged_order_item) same h
      | inr (merged, found) ↦
          let next : MergedOrderItem × Map CreateOrder → Outcome Maps = λ r. ok (record {
            map_merged_order_item = insert product.id r.0 m.map_merged_order_item;
            map_order = r.1;
          }) in
          let loop : Outcome (MergedOrderItem × Map CreateOrder) =
            check_loop (length merged.items) product.quantity merged m.map_order in
          let run : check_product product m ≡ (loop >>= next) = rw (found, check_product) refl in
          let (r, ran, rest) = Outcome-bind loop next (sym run ∙ e) in
          subst (λ (n : Maps). IsKeyed n.map_merged_order_item) (ok-injective rest)
            (insert-IsKeyed product.id r.0 m.map_merged_order_item h)
    ]

pub check_decrease_quantity-IsKeyed :
    (products : List Product) (m m' : Maps)
    → check_decrease_quantity products m ≡ ok m'
    → IsKeyed m.map_merged_order_item
    → IsKeyed m'.map_merged_order_item
unfolding check_decrease_quantity
check_decrease_quantity-IsKeyed [] m m' e h =
    subst (λ (n : Maps). IsKeyed n.map_merged_order_item) (ok-injective e) h
check_decrease_quantity-IsKeyed (product ∷ products) m m' e h =
    let (m1, ran, rest) =
      Outcome-bind (check_product product m) (check_decrease_quantity products) e in
    check_decrease_quantity-IsKeyed products m1 m' rest (check_product-IsKeyed product m m1 ran h)
