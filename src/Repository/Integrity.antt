-- ===== src/Repository/Integrity.antt =====
-- The constraints of migrations/*.sql, as an invariant of the tables.
pub mod Keys
pub mod Tables
pub mod Products
pub mod Carts
pub mod Orders
pub mod Unused
pub mod Statements
use hedonify.Prelude.{ℕ, ◌≡◌, ◌≢◌, true, List, [], ◌∷◌, map, All, elem}
use hedonify.Repository.Models.{Db, User, Product, Cart, CartItem, Order, OrderItem}

-- No number comes twice.
abbrev pub AreDistinct : List ℕ → Type 0
AreDistinct [] = Unit {0}
AreDistinct (k ∷ ks) = All (λ j. j ≢ k) ks × AreDistinct ks

-- Every row refers to one of the keys.
abbrev pub Refer : {A : Type 0} → (A → ℕ) → List A → List ℕ → Type 0
Refer f rows keys = All (λ row. elem (f row) keys ≡ true) rows

abbrev pub user_ids : Db → List ℕ
user_ids db = map (λ (u : User). u.id) db.users

abbrev pub product_ids : Db → List ℕ
product_ids db = map (λ (p : Product). p.id) db.products

abbrev pub cart_ids : Db → List ℕ
cart_ids db = map (λ (c : Cart). c.id) db.carts

abbrev pub cart_item_ids : Db → List ℕ
cart_item_ids db = map (λ (i : CartItem). i.id) db.cart_items

abbrev pub order_ids : Db → List ℕ
order_ids db = map (λ (o : Order). o.id) db.orders

abbrev pub order_item_ids : Db → List ℕ
order_item_ids db = map (λ (i : OrderItem). i.id) db.order_items

-- The primary keys are distinct, and the foreign keys refer to rows that are there.
pub record IsIntegral (db : Db) : Type 0 where
  pub users : AreDistinct (user_ids db)
  pub products : AreDistinct (product_ids db)
  pub carts : AreDistinct (cart_ids db)
  pub cart_items : AreDistinct (cart_item_ids db)
  pub orders : AreDistinct (order_ids db)
  pub order_items : AreDistinct (order_item_ids db)
  pub cart_users : Refer (λ (c : Cart). c.user_id) db.carts (user_ids db)
  pub item_carts : Refer (λ (i : CartItem). i.cart_id) db.cart_items (cart_ids db)
  pub item_products : Refer (λ (i : CartItem). i.product_id) db.cart_items (product_ids db)
  pub order_users : Refer (λ (o : Order). o.user_id) db.orders (user_ids db)
  pub item_orders : Refer (λ (i : OrderItem). i.order_id) db.order_items (order_ids db)
  pub ordered_products : Refer (λ (i : OrderItem). i.product_id) db.order_items (product_ids db)
