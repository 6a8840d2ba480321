-- ===== src/Repository/Integrity/Tables.antt =====
-- A change of one table keeps the constraints when those that name the table still hold.
use hedonify.Prelude.{List, map}
use hedonify.Repository.Models.{Db, User, Product, Cart, CartItem, Order, OrderItem}
use hedonify.Repository.Integrity.{
  AreDistinct, Refer, user_ids, product_ids, cart_ids, order_ids, IsIntegral,
}

module _ (db : Db) (h : IsIntegral db) where
  pub set_users-IsIntegral :
      (rows : List User)
      → AreDistinct (map (λ (r : User). r.id) rows)
      → Refer (λ (r : Cart). r.user_id) db.carts (map (λ (r : User). r.id) rows)
      → Refer (λ (r : Order). r.user_id) db.orders (map (λ (r : User). r.id) rows)
      → IsIntegral (record db { users = rows })
  set_users-IsIntegral rows h0 h1 h2 = record {
    users = h0;
    products = h.products;
    carts = h.carts;
    cart_items = h.cart_items;
    orders = h.orders;
    order_items = h.order_items;
    cart_users = h1;
    item_carts = h.item_carts;
    item_products = h.item_products;
    order_users = h2;
    item_orders = h.item_orders;
    ordered_products = h.ordered_products;
  }

  pub set_products-IsIntegral :
      (rows : List Product)
      → AreDistinct (map (λ (r : Product). r.id) rows)
      → Refer (λ (r : CartItem). r.product_id) db.cart_items (map (λ (r : Product). r.id) rows)
      → Refer (λ (r : OrderItem). r.product_id) db.order_items (map (λ (r : Product). r.id) rows)
      → IsIntegral (record db { products = rows })
  set_products-IsIntegral rows h0 h1 h2 = record {
    users = h.users;
    products = h0;
    carts = h.carts;
    cart_items = h.cart_items;
    orders = h.orders;
    order_items = h.order_items;
    cart_users = h.cart_users;
    item_carts = h.item_carts;
    item_products = h1;
    order_users = h.order_users;
    item_orders = h.item_orders;
    ordered_products = h2;
  }

  pub set_carts-IsIntegral :
      (rows : List Cart)
      → AreDistinct (map (λ (r : Cart). r.id) rows)
      → Refer (λ (r : Cart). r.user_id) rows (user_ids db)
      → Refer (λ (r : CartItem). r.cart_id) db.cart_items (map (λ (r : Cart). r.id) rows)
      → IsIntegral (record db { carts = rows })
  set_carts-IsIntegral rows h0 h1 h2 = record {
    users = h.users;
    products = h.products;
    carts = h0;
    cart_items = h.cart_items;
    orders = h.orders;
    order_items = h.order_items;
    cart_users = h1;
    item_carts = h2;
    item_products = h.item_products;
    order_users = h.order_users;
    item_orders = h.item_orders;
    ordered_products = h.ordered_products;
  }

  pub set_cart_items-IsIntegral :
      (rows : List CartItem)
      → AreDistinct (map (λ (r : CartItem). r.id) rows)
      → Refer (λ (r : CartItem). r.cart_id) rows (cart_ids db)
      → Refer (λ (r : CartItem). r.product_id) rows (product_ids db)
      → IsIntegral (record db { cart_items = rows })
  set_cart_items-IsIntegral rows h0 h1 h2 = record {
    users = h.users;
    products = h.products;
    carts = h.carts;
    cart_items = h0;
    orders = h.orders;
    order_items = h.order_items;
    cart_users = h.cart_users;
    item_carts = h1;
    item_products = h2;
    order_users = h.order_users;
    item_orders = h.item_orders;
    ordered_products = h.ordered_products;
  }

  pub set_orders-IsIntegral :
      (rows : List Order)
      → AreDistinct (map (λ (r : Order). r.id) rows)
      → Refer (λ (r : Order). r.user_id) rows (user_ids db)
      → Refer (λ (r : OrderItem). r.order_id) db.order_items (map (λ (r : Order). r.id) rows)
      → IsIntegral (record db { orders = rows })
  set_orders-IsIntegral rows h0 h1 h2 = record {
    users = h.users;
    products = h.products;
    carts = h.carts;
    cart_items = h.cart_items;
    orders = h0;
    order_items = h.order_items;
    cart_users = h.cart_users;
    item_carts = h.item_carts;
    item_products = h.item_products;
    order_users = h1;
    item_orders = h2;
    ordered_products = h.ordered_products;
  }

  pub set_order_items-IsIntegral :
      (rows : List OrderItem)
      → AreDistinct (map (λ (r : OrderItem). r.id) rows)
      → Refer (λ (r : OrderItem). r.order_id) rows (order_ids db)
      → Refer (λ (r : OrderItem). r.product_id) rows (product_ids db)
      → IsIntegral (record db { order_items = rows })
  set_order_items-IsIntegral rows h0 h1 h2 = record {
    users = h.users;
    products = h.products;
    carts = h.carts;
    cart_items = h.cart_items;
    orders = h.orders;
    order_items = h0;
    cart_users = h.cart_users;
    item_carts = h.item_carts;
    item_products = h.item_products;
    order_users = h.order_users;
    item_orders = h1;
    ordered_products = h2;
  }
