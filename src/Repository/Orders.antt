-- ===== src/Repository/Orders.antt =====
-- The statements of internal/repository/orders.sql.go and the copies of copyfrom.go.
use hedonify.Prelude.{
  ℕ, ℤ, List, [], ◌∷◌, ◌++◌, Option, none, some, ◌==◌, ◌&&◌, if◌then◌else◌, select, find_first,
  any_of, elem, concat_map,
}
use mathlib.Core.Option
use hedonify.Repository.Models.{
  Numeric, Timestamptz, OrderStatus, waiting_payment, Order, OrderItem, Db,
}

pub record InsertOrdersParams : Type 0 where
  pub id : ℕ
  pub user_id : ℕ
  pub created_at : Timestamptz
  pub updated_at : Timestamptz

pub record InsertOrderItemParams : Type 0 where
  pub id : ℕ
  pub order_id : ℕ
  pub product_id : ℕ
  pub quantity : ℤ
  pub price : Numeric
  pub created_at : Timestamptz
  pub updated_at : Timestamptz

-- One row copied into orders: the identifier is new and the user exists. A new order waits for
-- its payment.
unfoldable pub insert_order_row : InsertOrdersParams → Db → Option Db
insert_order_row arg db =
    if any_of (λ o. arg.id == o.id) db.orders
    then none
    else if any_of (λ u. arg.user_id == u.id) db.users
    then some (record db {
      orders =
          db.orders
          ++ record {
            id = arg.id;
            user_id = arg.user_id;
            status = waiting_payment;
            created_at = arg.created_at;
            updated_at = arg.updated_at;
          }
            ∷ [];
    })
    else none

-- A copy inserts all its rows or fails.
unfoldable pub insert_orders : List InsertOrdersParams → Db → Option Db
insert_orders [] db = some db
insert_orders (arg ∷ args) db = Option.bind (insert_order_row arg db) (insert_orders args)

-- One row copied into order_items: the identifier is new, and the order and the product exist.
unfoldable pub insert_item_row : InsertOrderItemParams → Db → Option Db
insert_item_row arg db =
    if any_of (λ i. arg.id == i.id) db.order_items
    then none
    else if any_of (λ o. arg.order_id == o.id) db.orders
        && any_of (λ p. arg.product_id == p.id) db.products
    then some (record db {
      order_items =
          db.order_items
          ++ record {
            id = arg.id;
            order_id = arg.order_id;
            product_id = arg.product_id;
            quantity = arg.quantity;
            price = arg.price;
            created_at = arg.created_at;
            updated_at = arg.updated_at;
          }
            ∷ [];
    })
    else none

unfoldable pub insert_order_item : List InsertOrderItemParams → Db → Option Db
insert_order_item [] db = some db
insert_order_item (arg ∷ args) db = Option.bind (insert_item_row arg db) (insert_order_item args)

-- GetOrdersRow and FindOrderByIdRow; the column of aggregated items is kept as the rows.
pub record OrderRow : Type 0 where
  pub id : ℕ
  pub user_id : ℕ
  pub status : OrderStatus
  pub created_at : Timestamptz
  pub updated_at : Timestamptz
  pub order_items : List OrderItem

-- An order joined with its items: no row for an order without items.
unfoldable pub join_items : Db → Order → List OrderRow
join_items db o = elim (select (λ i. o.id == i.order_id) db.order_items) [
  | [] ↦ []
  | i ∷ items ↦
      record {
        id = o.id;
        user_id = o.user_id;
        status = o.status;
        created_at = o.created_at;
        updated_at = o.updated_at;
        order_items = i ∷ items;
      }
      ∷ []
]

-- getOrders
unfoldable pub get_orders : List ℕ → Db → List OrderRow
get_orders ids db = concat_map (join_items db) (select (λ o. elem o.id ids) db.orders)

-- findOrderById: $1 is the user and $2 the order.
unfoldable pub find_order_by_id : ℕ → ℕ → Db → Option OrderRow
find_order_by_id user_id order_id db =
    if any_of (λ u. user_id == u.id) db.users
    then find_first (λ r. user_id == r.user_id && order_id == r.id)
        (concat_map (join_items db) db.orders)
    else none

-- findOrderItemById: the item's own identifier.
unfoldable pub find_order_item_by_id : ℕ → Db → List OrderItem
find_order_item_by_id id db = select (λ i. id == i.id) db.order_items

-- findOrderUserId
unfoldable pub find_order_user_id : ℕ → Db → List Order
find_order_user_id user_id db =
    if any_of (λ u. user_id == u.id) db.users
    then select (λ o. user_id == o.user_id) db.orders
    else []
