-- ===== src/Repository/Integrity/Unused.antt =====
-- The statements that no service calls keep the constraints.
use hedonify.Prelude.{
  ℕ, ◌≡◌, refl, subst, true, false, List, [], ◌∷◌, ◌++◌, map, some, elem, select, not, arith, ◌==◌,
  if◌then◌else◌,
}
use hedonify.Repository.Models.{Db, User, Product, Cart, CartItem, Order, OrderItem}
use hedonify.Repository.Carts.{InsertCartItemsParams}
use hedonify.Repository.Unused.{
  UpdateProductQuantityParams, with_quantity, update_product_quantity, InsertOrderParams,
  insert_order, insert_cart_item, delete_order_item_from_orders_by_id,
}
use hedonify.Repository.Integrity.{
  user_ids, product_ids, cart_ids, cart_item_ids, order_ids, IsIntegral,
}
use hedonify.Repository.Integrity.Tables.{
  set_orders-IsIntegral, set_cart_items-IsIntegral, set_order_items-IsIntegral,
}
use hedonify.Repository.Integrity.Keys.{
  any_of-elem, AreDistinct-added, AreDistinct-select, All-added, All-select, Refer-added,
}
use hedonify.Repository.Integrity.Products.{same_ids-IsIntegral}

with_quantity-ids :
    (arg : UpdateProductQuantityParams) (rows : List Product)
    → map
        (λ (p : Product). p.id)
        (map (λ q. if arg.id == q.id then with_quantity arg q else q) rows)
      ≡ map (λ (p : Product). p.id) rows
with_quantity-ids arg [] = refl
with_quantity-ids arg (p ∷ rows) = ground (arith, with_quantity-ids arg rows)

update_product_quantity-updated :
    (arg : UpdateProductQuantityParams) (db db' : Db) (row : Product)
    → update_product_quantity arg db ≡ some (row, db')
    → record db {
      products = map (λ q. if arg.id == q.id then with_quantity arg q else q) db.products;
    }
      ≡ db'
unfolding update_product_quantity
update_product_quantity-updated arg db db' row e = ground arith

pub update_product_quantity-IsIntegral :
    (arg : UpdateProductQuantityParams) (db db' : Db) (row : Product)
    → update_product_quantity arg db ≡ some (row, db')
    → IsIntegral db
    → IsIntegral db'
update_product_quantity-IsIntegral arg db db' row e h =
    subst IsIntegral (update_product_quantity-updated arg db db' row e)
      (same_ids-IsIntegral _ db (with_quantity-ids arg db.products) h)

insert_order-added :
    (now : ℕ) (arg : InsertOrderParams) (db db' : Db) (row : Order)
    → insert_order now arg db ≡ some (row, db')
    → (elem row.id (order_ids db) ≡ false)
      × (elem row.user_id (user_ids db) ≡ true)
      × (record db { orders = db.orders ++ row ∷ [] } ≡ db')
unfolding insert_order
insert_order-added now arg db db' row e = ground (
  arith,
  any_of-elem (λ (o : Order). o.id) arg.id db.orders,
  any_of-elem (λ (u : User). u.id) arg.user_id db.users,
)

pub insert_order-IsIntegral :
    (now : ℕ) (arg : InsertOrderParams) (db db' : Db) (row : Order)
    → insert_order now arg db ≡ some (row, db')
    → IsIntegral db
    → IsIntegral db'
insert_order-IsIntegral now arg db db' row e h =
    let (new, user, same) = insert_order-added now arg db db' row e in
    subst IsIntegral same (
      set_orders-IsIntegral db h (db.orders ++ row ∷ [])
        (AreDistinct-added (λ (o : Order). o.id) db.orders row new h.orders)
        (All-added _ db.orders row h.order_users user)
        (Refer-added _ _ db.order_items db.orders row h.item_orders))

insert_cart_item-added :
    (now : ℕ) (arg : InsertCartItemsParams) (db db' : Db) (row : CartItem)
    → insert_cart_item now arg db ≡ some (row, db')
    → (elem row.id (cart_item_ids db) ≡ false)
      × (elem row.cart_id (cart_ids db) ≡ true)
      × (elem row.product_id (product_ids db) ≡ true)
      × (record db { cart_items = db.cart_items ++ row ∷ [] } ≡ db')
unfolding insert_cart_item
insert_cart_item-added now arg db db' row e = ground (
  arith,
  any_of-elem (λ (i : CartItem). i.id) arg.id db.cart_items,
  any_of-elem (λ (c : Cart). c.id) arg.cart_id db.carts,
  any_of-elem (λ (p : Product). p.id) arg.product_id db.products,
)

pub insert_cart_item-IsIntegral :
    (now : ℕ) (arg : InsertCartItemsParams) (db db' : Db) (row : CartItem)
    → insert_cart_item now arg db ≡ some (row, db')
    → IsIntegral db
    → IsIntegral db'
insert_cart_item-IsIntegral now arg db db' row e h =
    let (new, cart, product, same) = insert_cart_item-added now arg db db' row e in
    subst IsIntegral same (
      set_cart_items-IsIntegral db h (db.cart_items ++ row ∷ [])
        (AreDistinct-added (λ (i : CartItem). i.id) db.cart_items row new h.cart_items)
        (All-added _ db.cart_items row h.item_carts cart)
        (All-added _ db.cart_items row h.item_products product))

delete_order_item-deleted :
    (id : ℕ) (db db' : Db) (row : OrderItem)
    → delete_order_item_from_orders_by_id id db ≡ some (row, db')
    → record db { order_items = select (λ j. not (id == j.id)) db.order_items } ≡ db'
unfolding delete_order_item_from_orders_by_id
delete_order_item-deleted id db db' row e = ground arith

pub delete_order_item-IsIntegral :
    (id : ℕ) (db db' : Db) (row : OrderItem)
    → delete_order_item_from_orders_by_id id db ≡ some (row, db')
    → IsIntegral db
    → IsIntegral db'
delete_order_item-IsIntegral id db db' row e h =
    subst IsIntegral (delete_order_item-deleted id db db' row e) (
      set_order_items-IsIntegral db h (select (λ j. not (id == j.id)) db.order_items)
        (AreDistinct-select (λ (i : OrderItem). i.id) _ db.order_items h.order_items)
        (All-select _ _ db.order_items h.item_orders)
        (All-select _ _ db.order_items h.ordered_products))
