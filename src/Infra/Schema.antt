-- ===== src/Infra/Schema.antt =====
-- migrations/*.sql: the tables, which may be missing, and the scripts that create and drop them.
use hedonify.Prelude.{ℕ, zero, suc, Bool, true, false, List, [], Option, none, some}
use hedonify.Repository.Models.{User, Product, Cart, CartItem, Order, OrderItem}

-- A table that is not there is none; order_status is whether the type is there.
pub record Schema : Type 0 where
  pub users : Option (List User)
  pub products : Option (List Product)
  pub carts : Option (List Cart)
  pub cart_items : Option (List CartItem)
  pub order_status : Bool
  pub orders : Option (List Order)
  pub order_items : Option (List OrderItem)

-- `create table if not exists`
unfoldable pub create_table : {A : Type 0} → Option (List A) → Option (List A)
create_table none = some []
create_table (some rows) = some rows

-- Whether nothing refers to a table, as `drop table` demands.
abbrev pub is_absent : {A : Type 0} → Option (List A) → Bool
is_absent none = true
is_absent (some rows) = false

-- A table that a script refers to must be there.
abbrev pub needs : {A : Type 0} → Option (List A) → Option Schema → Option Schema
needs none s = none
needs (some rows) s = s

abbrev pub allowed : Bool → Option Schema → Option Schema
allowed true s = s
allowed false s = none

unfoldable pub users_up : Schema → Option Schema
users_up s = some (record s { users = create_table s.users })

unfoldable pub users_down : Schema → Option Schema
users_down s =
    allowed (is_absent s.carts) (allowed (is_absent s.orders) (some (record s { users = none })))

unfoldable pub products_up : Schema → Option Schema
products_up s = some (record s { products = create_table s.products })

unfoldable pub products_down : Schema → Option Schema
products_down s =
    allowed (is_absent s.cart_items)
      (allowed (is_absent s.order_items) (some (record s { products = none })))

unfoldable pub carts_up : Schema → Option Schema
carts_up s = needs s.users (
    needs s.products
      (some (record s { carts = create_table s.carts; cart_items = create_table s.cart_items })))

unfoldable pub carts_down : Schema → Option Schema
carts_down s = some (record s { cart_items = none; carts = none })

unfoldable pub orders_up : Schema → Option Schema
orders_up s = elim s.order_status [
  | true ↦ none
  | false ↦ needs s.users (
      needs s.products (
        some (record s {
          order_status = true;
          orders = create_table s.orders;
          order_items = create_table s.order_items;
        })))
]

unfoldable pub orders_down : Schema → Option Schema
orders_down s = some (record s { order_items = none; orders = none; order_status = false })

-- The scripts by version, in the order of the times in their names.
unfoldable pub script_up : ℕ → Schema → Option Schema
script_up zero = some
script_up (suc zero) = users_up
script_up (suc (suc zero)) = products_up
script_up (suc (suc (suc zero))) = carts_up
script_up (suc (suc (suc (suc zero)))) = orders_up
script_up (suc (suc (suc (suc (suc n))))) = some

unfoldable pub script_down : ℕ → Schema → Option Schema
script_down zero = some
script_down (suc zero) = users_down
script_down (suc (suc zero)) = products_down
script_down (suc (suc (suc zero))) = carts_down
script_down (suc (suc (suc (suc zero)))) = orders_down
script_down (suc (suc (suc (suc (suc n))))) = some
