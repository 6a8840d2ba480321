-- ===== src/Order/Batch/Stock/Sold.antt =====
-- What a batch records as sold of each product.
use hedonify.Prelude.{
  ℕ, ◌+◌, ◌≡◌, refl, ◌∙◌, false, List, [], ◌∷◌, some, arith, ◌==◌, if◌then◌else◌, All, map, sum_of,
  sum_of-append, pos_part, subst, bind-eq-some,
}
use mathlib.Core.Option.{some-injective}
use hedonify.Prelude.Map.{Map, sum_values}
use hedonify.Repository.Models.{Db, Product}
use hedonify.Repository.Models
use hedonify.Repository.Orders.{
  InsertOrderItemParams, InsertOrdersParams, insert_item_row, insert_order_item, insert_order_row,
  insert_orders,
}
use hedonify.Order.Request.{OrderItem}
use hedonify.Order.Batch.Merge.{MergedOrderItem}
use hedonify.Order.Batch.Prepare.{Times, item_args, prepare_order_item_args}
use hedonify.Order.Batch.Check.Fit.{units, all_units}

-- The units of a product in the rows of order_items.
abbrev pub sold : ℕ → List Models.OrderItem → ℕ
sold p = sum_of (λ i. if p == i.product_id then pos_part i.quantity else 0)

abbrev pub sold_args : ℕ → List InsertOrderItemParams → ℕ
sold_args p = sum_of (λ i. if p == i.product_id then pos_part i.quantity else 0)

abbrev pub wanted : ℕ → List OrderItem → ℕ
wanted p = sum_of (λ i. if p == i.product_id then units i else 0)

insert_item_row-sold :
    (p : ℕ) (arg : InsertOrderItemParams) (db db' : Db)
    → insert_item_row arg db ≡ some db'
    → (sold p db'.order_items
        ≡ sold p db.order_items + (if p == arg.product_id then pos_part arg.quantity else 0))
      × (db'.products ≡ db.products)
unfolding insert_item_row
insert_item_row-sold p arg db db' e = ground (
  arith,
  sum_of-append (λ i. if p == i.product_id then pos_part i.quantity else 0) db.order_items
      (record {
        id = arg.id;
        order_id = arg.order_id;
        product_id = arg.product_id;
        quantity = arg.quantity;
        price = arg.price;
        created_at = arg.created_at;
        updated_at = arg.updated_at;
      }
        ∷ []),
)

-- The copy of items adds its units to what is sold, and changes no product.
pub insert_order_item-sold :
    (p : ℕ) (args : List InsertOrderItemParams) (db db' : Db)
    → insert_order_item args db ≡ some db'
    → (sold p db'.order_items ≡ sold p db.order_items + sold_args p args)
      × (db'.products ≡ db.products)
unfolding insert_order_item
insert_order_item-sold p [] db db' e =
    let same : db ≡ db' = some-injective _ _ e in
    subst
      (λ (d : Db). (sold p d.order_items ≡ sold p db.order_items + 0) × (d.products ≡ db.products))
      same (omega arith, refl)
insert_order_item-sold p (arg ∷ args) db db' e =
    let (d, ran, rest) = bind-eq-some (insert_item_row arg db) (insert_order_item args) e in
    let first = insert_item_row-sold p arg db d ran in
    let second = insert_order_item-sold p args d db' rest in
    (omega (arith, first.0, second.0), second.1 ∙ first.1)

insert_order_row-kept :
    (arg : InsertOrdersParams) (db db' : Db)
    → insert_order_row arg db ≡ some db'
    → (db'.order_items ≡ db.order_items) × (db'.products ≡ db.products)
unfolding insert_order_row
insert_order_row-kept arg db db' e = ground arith

pub insert_orders-kept :
    (args : List InsertOrdersParams) (db db' : Db)
    → insert_orders args db ≡ some db'
    → (db'.order_items ≡ db.order_items) × (db'.products ≡ db.products)
unfolding insert_orders
insert_orders-kept [] db db' e = ground arith
insert_orders-kept (arg ∷ args) db db' e =
    let (d, ran, rest) = bind-eq-some (insert_order_row arg db) (insert_orders args) e in
    let first = insert_order_row-kept arg db d ran in
    let second = insert_orders-kept args d db' rest in (second.0 ∙ first.0, second.1 ∙ first.1)

map-sold_args :
    (p : ℕ) (times : Times) (items : List OrderItem)
    → sold_args p (map (item_args times) items) ≡ wanted p items
map-sold_args p times [] = refl
map-sold_args p times (i ∷ items) = ground (arith, map-sold_args p times items)

pub prepare_order_item_args-sold :
    (p : ℕ) (times : Times) (entries : Map MergedOrderItem)
    → sold_args p (prepare_order_item_args times entries)
      ≡ sum_values (λ merged. wanted p merged.items) entries
unfolding prepare_order_item_args
prepare_order_item_args-sold p times [] = refl
prepare_order_item_args-sold p times ((k, merged) ∷ entries) = omega (
  arith,
  sum_of-append (λ i. if p == i.product_id then pos_part i.quantity else 0)
      (map (item_args times) merged.items) (prepare_order_item_args times entries),
  map-sold_args p times merged.items,
  prepare_order_item_args-sold p times entries,
)

-- Items of one product.
abbrev pub AreOf : ℕ → List OrderItem → Type 0
AreOf k = All (λ i. k ≡ i.product_id)

pub wanted_own : (k : ℕ) (items : List OrderItem) → AreOf k items → wanted k items ≡ all_units items
wanted_own k [] h = refl
wanted_own k (i ∷ items) h = ground (arith, h.0, wanted_own k items h.1)

pub wanted_other :
    (p k : ℕ) (items : List OrderItem) → AreOf k items → (p == k) ≡ false → wanted p items ≡ 0
wanted_other p k [] h e = refl
wanted_other p k (i ∷ items) h e = ground (arith, h.0, wanted_other p k items h.1 e)
