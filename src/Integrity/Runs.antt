-- ===== src/Integrity/Runs.antt =====
-- Runs of all services on the tables that they share, operation after operation.
use hedonify.Prelude.{ℕ, [], Option}
use hedonify.Repository.Models.{Db, User}
use hedonify.Repository.Integrity.{IsIntegral}
use hedonify.Repository.Integrity.Statements.{Statement, Statement-IsIntegral}
use hedonify.Service.World.{World, Cache}
use hedonify.Service.Call.{Outside, M}
use hedonify.Service.Keeps.{Keeps}
use hedonify.Product.Request.{ProductRequest}
use hedonify.Product.Service.{
  Decode, insert_product_service, get_products, find_product_by_id_service, update_product_service,
  remove_product,
}
use hedonify.User.Request.{LoginRequest, Register, FindUserById}
use hedonify.User.Service.{Crypto, login, register, find_user_by_id}
use hedonify.Cart.Request.{Cart, FindCartById, RemoveCartItem, CheckoutCart}
use hedonify.Cart.Service.{
  CartHost, insert_cart_service, find_cart_by_id_service, find_cart_by_user_id_service,
  remove_cart_item, remove_cart, checkout_cart,
}
use hedonify.Order.Worker.{Worker, Step}
use hedonify.Integrity.Products.{
  insert_product_service-Keeps, get_products-Keeps, find_product_by_id_service-Keeps,
  update_product_service-Keeps, remove_product-Keeps,
}
use hedonify.Integrity.Users.{login-Keeps, register-Keeps, find_user_by_id-Keeps}
use hedonify.Cart.Reads.{find_cart_by_id_service-Keeps, find_cart_by_user_id_service-Keeps}
use hedonify.Integrity.Carts.{
  insert_cart_service-Keeps, remove_cart_item-Keeps, remove_cart-Keeps, checkout_cart-Keeps,
}
use hedonify.Integrity.Orders.{Step-IsIntegral}

-- The tables after an operation.
abbrev pub tables_after : {A : Type 0} → M A → World → Db
tables_after m w = (m w).1.db

-- The operations of the services. What Redis holds and which call it is are free.
pub data Operates (w : World) : Db → Type 0 where
  inserts_product :
      (out : Outside) (param : ProductRequest)
      → Operates w (tables_after (insert_product_service out param) w)
  gets_products : (out : Outside) → Operates w (tables_after (get_products out) w)
  finds_product :
      (out : Outside) (decode : Decode) (id : ℕ)
      → Operates w (tables_after (find_product_by_id_service out decode id) w)
  updates_product :
      (out : Outside) (id : ℕ) (param : ProductRequest)
      → Operates w (tables_after (update_product_service out id param) w)
  removes_product : (out : Outside) (id : ℕ) → Operates w (tables_after (remove_product out id) w)
  logs_in :
      (out : Outside) (crypto : Crypto) (param : LoginRequest)
      → Operates w (tables_after (login out crypto param) w)
  registers :
      (out : Outside) (crypto : Crypto) (param : Register)
      → Operates w (tables_after (register out crypto param) w)
  finds_user :
      (out : Outside) (crypto : Crypto) (decode : User → Option User) (param : FindUserById)
      → Operates w (tables_after (find_user_by_id out crypto decode param) w)
  inserts_cart :
      (host : CartHost) (param : Cart) (user_id : ℕ)
      → Operates w (tables_after (insert_cart_service host param user_id) w)
  finds_cart :
      (host : CartHost) (param : FindCartById)
      → Operates w (tables_after (find_cart_by_id_service host param) w)
  finds_carts :
      (host : CartHost) (user_id : ℕ)
      → Operates w (tables_after (find_cart_by_user_id_service host user_id) w)
  removes_item :
      (host : CartHost) (param : RemoveCartItem)
      → Operates w (tables_after (remove_cart_item host param) w)
  removes_cart :
      (host : CartHost) (param : FindCartById)
      → Operates w (tables_after (remove_cart host param) w)
  checks_out :
      (host : CartHost) (param : CheckoutCart)
      → Operates w (tables_after (checkout_cart host param) w)

-- An operation of a service, a step of the order worker, or a statement on its own.
pub data Changes (db : Db) : Db → Type 0 where
  operates :
      {db' : Db} (cache : Cache) (calls : ℕ)
      → Operates (record { db = db; cache = cache; calls = calls }) db'
      → Changes db db'
  works : (w w' : Worker) → Step (record w { db = db }) w' → Changes db w'.db
  states : {db' : Db} → Statement db db' → Changes db db'

-- From the tables that the migrations leave, one change after another.
pub data Runs : Db → Type 0 where
  starts : Runs (record {
    users = [];
    products = [];
    carts = [];
    cart_items = [];
    orders = [];
    order_items = [];
  })
  changes : {db db' : Db} → Runs db → Changes db db' → Runs db'

kept :
    {A : Type 0} {m : M A}
    → Keeps IsIntegral m
    → (w : World) → IsIntegral w.db
    → IsIntegral (tables_after m w)
kept k w h = (k.keeps w h).ensured

Operates-IsIntegral : (w : World) (db : Db) → Operates w db → IsIntegral w.db → IsIntegral db
Operates-IsIntegral w db (inserts_product out param) =
    kept (insert_product_service-Keeps out param) w
Operates-IsIntegral w db (gets_products out) = kept (get_products-Keeps out) w
Operates-IsIntegral w db (finds_product out decode id) =
    kept (find_product_by_id_service-Keeps out decode id) w
Operates-IsIntegral w db (updates_product out id param) =
    kept (update_product_service-Keeps out id param) w
Operates-IsIntegral w db (removes_product out id) = kept (remove_product-Keeps out id) w
Operates-IsIntegral w db (logs_in out crypto param) = kept (login-Keeps out crypto param) w
Operates-IsIntegral w db (registers out crypto param) = kept (register-Keeps out crypto param) w
Operates-IsIntegral w db (finds_user out crypto decode param) =
    kept (find_user_by_id-Keeps out crypto decode param) w
Operates-IsIntegral w db (inserts_cart host param user_id) =
    kept (insert_cart_service-Keeps host param user_id) w
Operates-IsIntegral w db (finds_cart host param) = kept (find_cart_by_id_service-Keeps host param) w
Operates-IsIntegral w db (finds_carts host user_id) =
    kept (find_cart_by_user_id_service-Keeps host user_id) w
Operates-IsIntegral w db (removes_item host param) = kept (remove_cart_item-Keeps host param) w
Operates-IsIntegral w db (removes_cart host param) = kept (remove_cart-Keeps host param) w
Operates-IsIntegral w db (checks_out host param) = kept (checkout_cart-Keeps host param) w

Changes-IsIntegral : (db db' : Db) → Changes db db' → IsIntegral db → IsIntegral db'
Changes-IsIntegral db db' (operates cache calls o) h =
    Operates-IsIntegral (record { db = db; cache = cache; calls = calls }) _ o h
Changes-IsIntegral db db' (works w w' s) h = Step-IsIntegral (record w { db = db }) w' s h
Changes-IsIntegral db db' (states s) h = Statement-IsIntegral db db' s h

-- From the empty tables of the migrations, whatever operations of the product, user and cart
-- services, steps of the order worker and single statements of the repository run one after another,
-- and whatever calls fail in them: the primary keys of each table are distinct, and every foreign key
-- refers to a row that is there.
pub Runs-IsIntegral : (db : Db) → Runs db → IsIntegral db
Runs-IsIntegral db starts = record {
  users = tt;
  products = tt;
  carts = tt;
  cart_items = tt;
  orders = tt;
  order_items = tt;
  cart_users = tt;
  item_carts = tt;
  item_products = tt;
  order_users = tt;
  item_orders = tt;
  ordered_products = tt;
}
Runs-IsIntegral db' (changes {db} r c) = Changes-IsIntegral db db' c (Runs-IsIntegral db r)
