-- ===== src/Repository/Integrity/Orders.antt =====
-- The copies into orders and order_items keep the constraints.
use hedonify.Prelude.{◌≡◌, true, false, List, [], ◌∷◌, ◌++◌, elem, arith, subst, some, bind-eq-some}
use hedonify.Repository.Models.{Db, User, Product, Order, OrderItem, waiting_payment}
use hedonify.Repository.Integrity.{user_ids, product_ids, order_ids, order_item_ids, IsIntegral}
use hedonify.Repository.Integrity.Tables.{set_orders-IsIntegral, set_order_items-IsIntegral}
use hedonify.Repository.Integrity.Keys.{any_of-elem, AreDistinct-added, All-added, Refer-added}
use hedonify.Repository.Orders.{
  InsertOrdersParams, insert_order_row, insert_orders, InsertOrderItemParams, insert_item_row,
  insert_order_item,
}

insert_order_row-added :
    (arg : InsertOrdersParams) (db db' : Db)
    → insert_order_row arg db ≡ some db'
    → (row : Order) × ((elem row.id (order_ids db) ≡ false)
        × (elem row.user_id (user_ids db) ≡ true)
        × (record db { orders = db.orders ++ row ∷ [] } ≡ db'))
unfolding insert_order_row
insert_order_row-added arg db db' e = (
  record {
    id = arg.id;
    user_id = arg.user_id;
    status = waiting_payment;
    created_at = arg.created_at;
    updated_at = arg.updated_at;
  },
  ground (
    arith,
    any_of-elem (λ (o : Order). o.id) arg.id db.orders,
    any_of-elem (λ (u : User). u.id) arg.user_id db.users,
  ),
)

pub insert_orders-IsIntegral :
    (args : List InsertOrdersParams) (db db' : Db)
    → insert_orders args db ≡ some db'
    → IsIntegral db
    → IsIntegral db'
unfolding insert_orders
insert_orders-IsIntegral [] db db' e h = subst IsIntegral (ground arith) h
insert_orders-IsIntegral (arg ∷ args) db db' e h =
    let (d, one, rest) = bind-eq-some (insert_order_row arg db) (insert_orders args) e in
    let (row, (new, user, same)) = insert_order_row-added arg db d one in
    insert_orders-IsIntegral args d db' rest (
      subst IsIntegral same (
        set_orders-IsIntegral db h (db.orders ++ row ∷ [])
          (AreDistinct-added (λ (o : Order). o.id) db.orders row new h.orders)
          (All-added _ db.orders row h.order_users user)
          (Refer-added _ _ db.order_items db.orders row h.item_orders)))

insert_item_row-added :
    (arg : InsertOrderItemParams) (db db' : Db)
    → insert_item_row arg db ≡ some db'
    → (row : OrderItem) × ((elem row.id (order_item_ids db) ≡ false)
        × (elem row.order_id (order_ids db) ≡ true)
        × (elem row.product_id (product_ids db) ≡ true)
        × (record db { order_items = db.order_items ++ row ∷ [] } ≡ db'))
unfolding insert_item_row
insert_item_row-added arg db db' e = (
  record {
    id = arg.id;
    order_id = arg.order_id;
    product_id = arg.product_id;
    quantity = arg.quantity;
    price = arg.price;
    created_at = arg.created_at;
    updated_at = arg.updated_at;
  },
  ground (
    arith,
    any_of-elem (λ (i : OrderItem). i.id) arg.id db.order_items,
    any_of-elem (λ (o : Order). o.id) arg.order_id db.orders,
    any_of-elem (λ (p : Product). p.id) arg.product_id db.products,
  ),
)

pub insert_order_item-IsIntegral :
    (args : List InsertOrderItemParams) (db db' : Db)
    → insert_order_item args db ≡ some db'
    → IsIntegral db
    → IsIntegral db'
unfolding insert_order_item
insert_order_item-IsIntegral [] db db' e h = subst IsIntegral (ground arith) h
insert_order_item-IsIntegral (arg ∷ args) db db' e h =
    let (d, one, rest) = bind-eq-some (insert_item_row arg db) (insert_order_item args) e in
    let (row, (new, order, product, same)) = insert_item_row-added arg db d one in
    insert_order_item-IsIntegral args d db' rest (
      subst IsIntegral same (
        set_order_items-IsIntegral db h (db.order_items ++ row ∷ [])
          (AreDistinct-added (λ (i : OrderItem). i.id) db.order_items row new h.order_items)
          (All-added _ db.order_items row h.item_orders order)
          (All-added _ db.order_items row h.ordered_products product)))
