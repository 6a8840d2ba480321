-- ===== src/Repository/Integrity/Statements.antt =====
-- Every statement of internal/repository that changes a table.
use hedonify.Prelude.{ℕ, ℤ, ◌≡◌, List, some}
use hedonify.Repository.Models.{Db, User, Product, Cart, CartItem, Order, OrderItem}
use hedonify.Repository.Products.{
  InsertProductParams, insert_product, UpdateProductParams, update_product, delete_product,
  decrease_quantities,
}
use hedonify.Repository.Users.{InsertUserParams, insert_user}
use hedonify.Repository.Carts.{
  insert_cart, InsertCartItemsParams, insert_cart_items, delete_cart_by_id_and_user_id,
  delete_cart_item_from_carts_by_id,
}
use hedonify.Repository.Orders.{
  InsertOrdersParams, insert_orders, InsertOrderItemParams, insert_order_item,
}
use hedonify.Repository.Unused.{
  UpdateProductQuantityParams, update_product_quantity, InsertOrderParams, insert_order,
  insert_cart_item, delete_order_item_from_orders_by_id,
}
use hedonify.Repository.Integrity.{IsIntegral}
use hedonify.Repository.Integrity.Products.{
  insert_product-IsIntegral, update_product-IsIntegral, delete_product-IsIntegral,
  decrease_quantities-IsIntegral, insert_user-IsIntegral,
}
use hedonify.Repository.Integrity.Carts.{
  insert_cart-IsIntegral, insert_cart_items-IsIntegral, delete_cart_item-IsIntegral,
  delete_cart-IsIntegral,
}
use hedonify.Repository.Integrity.Orders.{insert_orders-IsIntegral, insert_order_item-IsIntegral}
use hedonify.Repository.Integrity.Unused.{
  update_product_quantity-IsIntegral, insert_order-IsIntegral, insert_cart_item-IsIntegral,
  delete_order_item-IsIntegral,
}

pub data Statement (db db' : Db) : Type 0 where
  product_inserted :
      (fresh now : ℕ) (arg : InsertProductParams) (row : Product)
      → insert_product fresh now arg db ≡ some (row, db')
      → Statement db db'
  product_updated :
      (now : ℕ) (arg : UpdateProductParams) (row : Product)
      → update_product now arg db ≡ some (row, db')
      → Statement db db'
  quantity_updated :
      (arg : UpdateProductQuantityParams) (row : Product)
      → update_product_quantity arg db ≡ some (row, db')
      → Statement db db'
  quantities_decreased :
      (arms : List (ℕ × ℤ)) (ids : List ℕ) (now : ℕ)
      → decrease_quantities arms ids now db ≡ some db'
      → Statement db db'
  product_deleted :
      (id : ℕ) (row : Product) → delete_product id db ≡ some (row, db') → Statement db db'
  user_inserted :
      (fresh : ℕ) (arg : InsertUserParams) (row : User)
      → insert_user fresh arg db ≡ some (row, db')
      → Statement db db'
  cart_inserted :
      (fresh now user_id : ℕ) (row : Cart)
      → insert_cart fresh now user_id db ≡ some (row, db')
      → Statement db db'
  cart_items_inserted :
      (now : ℕ) (args : List InsertCartItemsParams)
      → insert_cart_items now args db ≡ some db'
      → Statement db db'
  cart_item_inserted :
      (now : ℕ) (arg : InsertCartItemsParams) (row : CartItem)
      → insert_cart_item now arg db ≡ some (row, db')
      → Statement db db'
  cart_item_deleted :
      (id cart_id : ℕ) (row : CartItem)
      → delete_cart_item_from_carts_by_id id cart_id db ≡ some (row, db')
      → Statement db db'
  cart_deleted :
      (id user_id : ℕ) (row : Cart)
      → delete_cart_by_id_and_user_id id user_id db ≡ some (row, db')
      → Statement db db'
  orders_inserted :
      (args : List InsertOrdersParams) → insert_orders args db ≡ some db' → Statement db db'
  order_inserted :
      (now : ℕ) (arg : InsertOrderParams) (row : Order)
      → insert_order now arg db ≡ some (row, db')
      → Statement db db'
  order_items_inserted :
      (args : List InsertOrderItemParams) → insert_order_item args db ≡ some db' → Statement db db'
  order_item_deleted :
      (id : ℕ) (row : OrderItem)
      → delete_order_item_from_orders_by_id id db ≡ some (row, db')
      → Statement db db'

pub Statement-IsIntegral : (db db' : Db) → Statement db db' → IsIntegral db → IsIntegral db'
Statement-IsIntegral db db' (product_inserted fresh now arg row e) =
    insert_product-IsIntegral fresh now arg db db' row e
Statement-IsIntegral db db' (product_updated now arg row e) =
    update_product-IsIntegral now arg db db' row e
Statement-IsIntegral db db' (quantity_updated arg row e) =
    update_product_quantity-IsIntegral arg db db' row e
Statement-IsIntegral db db' (quantities_decreased arms ids now e) =
    decrease_quantities-IsIntegral arms ids now db db' e
Statement-IsIntegral db db' (product_deleted id row e) = delete_product-IsIntegral id db db' row e
Statement-IsIntegral db db' (user_inserted fresh arg row e) =
    insert_user-IsIntegral fresh arg db db' row e
Statement-IsIntegral db db' (cart_inserted fresh now user_id row e) =
    insert_cart-IsIntegral fresh now user_id db db' row e
Statement-IsIntegral db db' (cart_items_inserted now args e) =
    insert_cart_items-IsIntegral now args db db' e
Statement-IsIntegral db db' (cart_item_inserted now arg row e) =
    insert_cart_item-IsIntegral now arg db db' row e
Statement-IsIntegral db db' (cart_item_deleted id cart_id row e) =
    delete_cart_item-IsIntegral id cart_id db db' row e
Statement-IsIntegral db db' (cart_deleted id user_id row e) =
    delete_cart-IsIntegral id user_id db db' row e
Statement-IsIntegral db db' (orders_inserted args e) = insert_orders-IsIntegral args db db' e
Statement-IsIntegral db db' (order_inserted now arg row e) =
    insert_order-IsIntegral now arg db db' row e
Statement-IsIntegral db db' (order_items_inserted args e) =
    insert_order_item-IsIntegral args db db' e
Statement-IsIntegral db db' (order_item_deleted id row e) =
    delete_order_item-IsIntegral id db db' row e
