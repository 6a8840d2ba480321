-- ===== src/Repository/Carts.antt =====
-- The statements of internal/repository/carts.sql.go.
use hedonify.Prelude.{
  ℕ, ℤ, List, [], ◌∷◌, ◌++◌, Option, none, some, map, not, ◌==◌, ◌&&◌, if◌then◌else◌, select,
  find_first, any_of, concat_map,
}
use mathlib.Core.Option
use hedonify.Repository.Models.{Numeric, Timestamptz, timestamptz_of, Cart, CartItem, Db}

-- insert into carts (user_id) values ($1) returning …
unfoldable pub insert_cart : ℕ → ℕ → ℕ → Db → Option (Cart × Db)
insert_cart fresh now user_id db =
    if any_of (λ c. fresh == c.id) db.carts
    then none
    else if any_of (λ u. user_id == u.id) db.users
    then (let row : Cart = record {
      id = fresh;
      user_id = user_id;
      created_at = timestamptz_of now;
      updated_at = timestamptz_of now;
    } in
        some (row, record db { carts = db.carts ++ row ∷ [] }))
    else none

pub record InsertCartItemsParams : Type 0 where
  pub id : ℕ
  pub cart_id : ℕ
  pub product_id : ℕ
  pub quantity : ℤ
  pub price : Numeric

unfoldable pub insert_cart_item_row : ℕ → InsertCartItemsParams → Db → Option Db
insert_cart_item_row now arg db =
    if any_of (λ i. arg.id == i.id) db.cart_items
    then none
    else if any_of (λ c. arg.cart_id == c.id) db.carts
        && any_of (λ p. arg.product_id == p.id) db.products
    then some (record db {
      cart_items =
          db.cart_items
          ++ record {
            id = arg.id;
            cart_id = arg.cart_id;
            product_id = arg.product_id;
            quantity = arg.quantity;
            price = arg.price;
            created_at = timestamptz_of now;
            updated_at = timestamptz_of now;
          }
            ∷ [];
    })
    else none

-- InsertCartItems of copyfrom.go: all rows or none.
unfoldable pub insert_cart_items : ℕ → List InsertCartItemsParams → Db → Option Db
insert_cart_items now [] db = some db
insert_cart_items now (arg ∷ args) db =
    Option.bind (insert_cart_item_row now arg db) (insert_cart_items now args)

-- FindCartByIdRow; the column of aggregated items is kept as the rows.
pub record CartRow : Type 0 where
  pub id : ℕ
  pub user_id : ℕ
  pub created_at : Timestamptz
  pub updated_at : Timestamptz
  pub cart_items : List CartItem

-- A cart joined with its items: no row for a cart without items.
unfoldable pub join_cart_items : Db → Cart → List CartRow
join_cart_items db c = elim (select (λ i. c.id == i.cart_id) db.cart_items) [
  | [] ↦ []
  | i ∷ items ↦
      record {
        id = c.id;
        user_id = c.user_id;
        created_at = c.created_at;
        updated_at = c.updated_at;
        cart_items = i ∷ items;
      }
      ∷ []
]

-- findCartById: $1 is the user and $2 the cart.
unfoldable pub find_cart_by_id : ℕ → ℕ → Db → Option CartRow
find_cart_by_id user_id cart_id db =
    if any_of (λ u. user_id == u.id) db.users
    then find_first (λ r. user_id == r.user_id && cart_id == r.id)
        (concat_map (join_cart_items db) db.carts)
    else none

-- FindCartByUserIdRow: one row for each item.
pub record CartItemRow : Type 0 where
  pub id : ℕ
  pub user_id : ℕ
  pub created_at : Timestamptz
  pub updated_at : Timestamptz
  pub cart_item : CartItem

unfoldable pub item_rows : Db → Cart → List CartItemRow
item_rows db c =
    map
      (λ i. record {
        id = c.id;
        user_id = c.user_id;
        created_at = c.created_at;
        updated_at = c.updated_at;
        cart_item = i;
      })
      (select (λ i. c.id == i.cart_id) db.cart_items)

-- findCartByUserId
unfoldable pub find_cart_by_user_id : ℕ → Db → List CartItemRow
find_cart_by_user_id user_id db =
    if any_of (λ u. user_id == u.id) db.users
    then concat_map (item_rows db) (select (λ c. user_id == c.user_id) db.carts)
    else []

-- findCartItemById
unfoldable pub find_cart_item_by_id : ℕ → Db → Option CartItem
find_cart_item_by_id id db = find_first (λ i. id == i.id) db.cart_items

-- deleteCartByIdAndUserId; the items of the cart go with it (on delete cascade).
unfoldable pub delete_cart_by_id_and_user_id : ℕ → ℕ → Db → Option (Cart × Db)
delete_cart_by_id_and_user_id id user_id db =
    Option.map
      (λ c. (
        c,
        record db {
          carts = select (λ k. not (id == k.id && user_id == k.user_id)) db.carts;
          cart_items = select (λ i. not (id == i.cart_id)) db.cart_items;
        },
      ))
      (find_first (λ k. id == k.id && user_id == k.user_id) db.carts)

-- deleteCartItemFromCartsById
unfoldable pub delete_cart_item_from_carts_by_id : ℕ → ℕ → Db → Option (CartItem × Db)
delete_cart_item_from_carts_by_id id cart_id db =
    Option.map
      (λ i. (
        i,
        record db {
          cart_items = select (λ k. not (id == k.id && cart_id == k.cart_id)) db.cart_items;
        },
      ))
      (find_first (λ k. id == k.id && cart_id == k.cart_id) db.cart_items)
