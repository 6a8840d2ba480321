-- ===== src/Repository/Unused.antt =====
-- The statements of internal/repository that no service calls.
use hedonify.Prelude.{
  ℕ, ℤ, Bool, not, ◌&&◌, List, [], ◌∷◌, ◌++◌, map, Option, none, some, ◌==◌, if◌then◌else◌, select,
  find_first, any_of, elem,
}
use mathlib.Core.Option
use hedonify.Repository.Models.{
  timestamptz_of, waiting_payment, Product, CartItem, Order, OrderItem, Db,
}
use hedonify.Repository.Carts.{InsertCartItemsParams}

-- select … from products where id = $1 for update skip locked: a row that another transaction has
-- locked is passed over.
unfoldable pub find_product_by_id_lock : (ℕ → Bool) → ℕ → Db → Option Product
find_product_by_id_lock locked id db = find_first (λ p. id == p.id && not (locked p.id)) db.products

-- select … from products where id = any($1) for share, once it has its locks
unfoldable pub find_products_by_ids_lock : List ℕ → Db → List Product
find_products_by_ids_lock ids db = select (λ p. elem p.id ids) db.products

-- getProducts
unfoldable pub get_products_rows : Db → List Product
get_products_rows db = db.products

pub record UpdateProductQuantityParams : Type 0 where
  pub id : ℕ
  pub quantity : ℤ

abbrev pub with_quantity : UpdateProductQuantityParams → Product → Product
with_quantity arg p = record p { quantity = arg.quantity }

-- update products set quantity = $2 where id = $1 returning …
unfoldable pub update_product_quantity : UpdateProductQuantityParams → Db → Option (Product × Db)
update_product_quantity arg db =
    Option.map
      (λ p. (
        with_quantity arg p,
        record db {
          products = map (λ q. if arg.id == q.id then with_quantity arg q else q) db.products;
        },
      ))
      (find_first (λ p. arg.id == p.id) db.products)

-- select … from orders where user_id = $1
unfoldable pub find_order_by_user_id : ℕ → Db → List Order
find_order_by_user_id user_id db = select (λ o. user_id == o.user_id) db.orders

pub record InsertOrderParams : Type 0 where
  pub id : ℕ
  pub user_id : ℕ

-- insert into orders (id, user_id) values ($1, $2) returning …; the times are current_timestamp.
unfoldable pub insert_order : ℕ → InsertOrderParams → Db → Option (Order × Db)
insert_order now arg db =
    if any_of (λ o. arg.id == o.id) db.orders
    then none
    else if any_of (λ u. arg.user_id == u.id) db.users
    then (let row : Order = record {
      id = arg.id;
      user_id = arg.user_id;
      status = waiting_payment;
      created_at = timestamptz_of now;
      updated_at = timestamptz_of now;
    } in
        some (row, record db { orders = db.orders ++ row ∷ [] }))
    else none

-- delete from order_items where id = $1 returning …
unfoldable pub delete_order_item_from_orders_by_id : ℕ → Db → Option (OrderItem × Db)
delete_order_item_from_orders_by_id id db =
    Option.map (λ i. (i, record db { order_items = select (λ j. not (id == j.id)) db.order_items }))
      (find_first (λ i. id == i.id) db.order_items)

-- select … from cart_items where cart_id = $1
unfoldable pub find_cart_item_by_cart_id : ℕ → Db → List CartItem
find_cart_item_by_cart_id cart_id db = select (λ i. cart_id == i.cart_id) db.cart_items

-- insert into cart_items (id, cart_id, product_id, quantity, price) values … returning …; its
-- parameters have the fields of those of insertCartItems.
unfoldable pub insert_cart_item : ℕ → InsertCartItemsParams → Db → Option (CartItem × Db)
insert_cart_item now arg db =
    if any_of (λ i. arg.id == i.id) db.cart_items
    then none
    else if any_of (λ c. arg.cart_id == c.id) db.carts
        && any_of (λ p. arg.product_id == p.id) db.products
    then (let row : CartItem = record {
      id = arg.id;
      cart_id = arg.cart_id;
      product_id = arg.product_id;
      quantity = arg.quantity;
      price = arg.price;
      created_at = timestamptz_of now;
      updated_at = timestamptz_of now;
    } in
        some (row, record db { cart_items = db.cart_items ++ row ∷ [] }))
    else none
