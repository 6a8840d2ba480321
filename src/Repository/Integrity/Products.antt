-- ===== src/Repository/Integrity/Products.antt =====
-- The statements on products and users keep the constraints.
use text.Mathlib.Text.{◌==◌ as str_eq}
use hedonify.Prelude.{
  ℕ, ℤ, ◌≡◌, refl, sym, Bool, false, not, List, [], ◌∷◌, ◌++◌, map, elem, any_of, select, arith,
  ◌==◌, ==_iff, ◌||◌, if◌then◌else◌, subst, some, bind-eq-some, map-eq-some,
}
use mathlib.Core.Option
use hedonify.Repository.Models.{Db, User, Product, CartItem, OrderItem}
use hedonify.Repository.Products.{
  InsertProductParams, insert_product, UpdateProductParams, update_rows, update_product,
  delete_product, decrease_row, decrease_rows, decrease_quantities,
}
use hedonify.Repository.Users.{InsertUserParams, insert_user}
use hedonify.Repository.Integrity.{AreDistinct, Refer, user_ids, product_ids, IsIntegral}
use hedonify.Repository.Integrity.Tables.{set_users-IsIntegral, set_products-IsIntegral}
use hedonify.Repository.Integrity.Keys.{
  any_of-elem, AreDistinct-added, AreDistinct-select, elem-select, Refer-added,
}

insert_product-added :
    (fresh now : ℕ) (arg : InsertProductParams) (db db' : Db) (row : Product)
    → insert_product fresh now arg db ≡ some (row, db')
    → (elem row.id (product_ids db) ≡ false)
      × (record db { products = db.products ++ row ∷ [] } ≡ db')
unfolding insert_product
insert_product-added fresh now arg db db' row e =
    ground (arith, any_of-elem (λ (p : Product). p.id) fresh db.products)

pub insert_product-IsIntegral :
    (fresh now : ℕ) (arg : InsertProductParams) (db db' : Db) (row : Product)
    → insert_product fresh now arg db ≡ some (row, db')
    → IsIntegral db
    → IsIntegral db'
insert_product-IsIntegral fresh now arg db db' row e h =
    let (new, same) = insert_product-added fresh now arg db db' row e in
    subst IsIntegral same (
      set_products-IsIntegral db h (db.products ++ row ∷ [])
        (AreDistinct-added (λ (p : Product). p.id) db.products row new h.products)
        (Refer-added _ _ db.cart_items db.products row h.item_products)
        (Refer-added _ _ db.order_items db.products row h.ordered_products))

-- Rows that keep their identifiers.
pub same_ids-IsIntegral :
    (rows : List Product) (db : Db)
    → map (λ (p : Product). p.id) rows ≡ product_ids db
    → IsIntegral db
    → IsIntegral (record db { products = rows })
same_ids-IsIntegral rows db same h =
    set_products-IsIntegral db h rows (subst AreDistinct (sym same) h.products)
      (subst (Refer (λ (i : CartItem). i.product_id) db.cart_items) (sym same) h.item_products)
      (subst (Refer (λ (i : OrderItem). i.product_id) db.order_items) (sym same) h.ordered_products)

update_rows-ids :
    (arg : UpdateProductParams) (now : ℕ) (rows : List Product)
    → map (λ (p : Product). p.id) (update_rows arg now rows) ≡ map (λ (p : Product). p.id) rows
unfolding update_rows
update_rows-ids arg now [] = refl
update_rows-ids arg now (p ∷ rows) = ground (arith, update_rows-ids arg now rows)

update_product-updated :
    (now : ℕ) (arg : UpdateProductParams) (db db' : Db) (row : Product)
    → update_product now arg db ≡ some (row, db')
    → record db { products = update_rows arg now db.products } ≡ db'
unfolding update_product
update_product-updated now arg db db' row e = ground arith

pub update_product-IsIntegral :
    (now : ℕ) (arg : UpdateProductParams) (db db' : Db) (row : Product)
    → update_product now arg db ≡ some (row, db')
    → IsIntegral db
    → IsIntegral db'
update_product-IsIntegral now arg db db' row e h =
    subst IsIntegral (update_product-updated now arg db db' row e) (
      same_ids-IsIntegral (update_rows arg now db.products) db (update_rows-ids arg now db.products)
        h)

decrease_row-id :
    (arms : List (ℕ × ℤ)) (ids : List ℕ) (now : ℕ) (row row' : Product)
    → (if elem row.id ids then decrease_row arms now row else some row) ≡ some row'
    → row'.id ≡ row.id
unfolding decrease_row
decrease_row-id arms ids now row row' e = ground arith

decrease_rows-ids :
    (arms : List (ℕ × ℤ)) (ids : List ℕ) (now : ℕ) (rows rows' : List Product)
    → decrease_rows arms ids now rows ≡ some rows'
    → map (λ (p : Product). p.id) rows' ≡ map (λ (p : Product). p.id) rows
unfolding decrease_rows
decrease_rows-ids arms ids now [] rows' e = ground arith
decrease_rows-ids arms ids now (p ∷ rows) rows' e =
    let (p', one, rest) =
      bind-eq-some (if elem p.id ids then decrease_row arms now p else some p)
        (λ q. Option.map (λ qs. q ∷ qs) (decrease_rows arms ids now rows)) e in
    let (rs, others, joined) = map-eq-some (decrease_rows arms ids now rows) (λ qs. p' ∷ qs) rest in
    ground (
      arith,
      decrease_row-id arms ids now p p' one,
      decrease_rows-ids arms ids now rows rs others,
      joined,
    )

pub decrease_quantities-IsIntegral :
    (arms : List (ℕ × ℤ)) (ids : List ℕ) (now : ℕ) (db db' : Db)
    → decrease_quantities arms ids now db ≡ some db'
    → IsIntegral db
    → IsIntegral db'
unfolding decrease_quantities
decrease_quantities-IsIntegral [] ids now db db' e h = cc
decrease_quantities-IsIntegral (arm ∷ arms) ids now db db' e h =
    let (rows, ran, same) =
      map-eq-some (decrease_rows (arm ∷ arms) ids now db.products)
        (λ ps. record db { products = ps }) e in
    subst IsIntegral same
      (same_ids-IsIntegral rows db (decrease_rows-ids (arm ∷ arms) ids now db.products rows ran) h)

-- A reference that is not to a row that goes is to one that stays.
Refer-deleted :
    {A B : Type 0} (f : A → ℕ) (g : B → ℕ) (id : ℕ) (rows : List A) (others : List B)
    → any_of (λ row. id == f row) rows ≡ false
    → Refer f rows (map g others)
    → Refer f rows (map g (select (λ row. not (id == g row)) others))
Refer-deleted f g id [] others none' h = tt
Refer-deleted f g id (row ∷ rows) others none' h = (
  elem-select g (f row) (λ r. not (id == g r)) others
      (λ r e. ground (arith, ==_iff (f row) (g r), none')) h.0,
  Refer-deleted f g id rows others (ground arith) h.1,
)

delete_product-deleted :
    (id : ℕ) (db db' : Db) (row : Product)
    → delete_product id db ≡ some (row, db')
    → (any_of (λ i. id == i.product_id) db.cart_items ≡ false)
      × (any_of (λ i. id == i.product_id) db.order_items ≡ false)
      × (record db { products = select (λ q. not (id == q.id)) db.products } ≡ db')
unfolding delete_product
delete_product-deleted id db db' row e = ground arith

pub delete_product-IsIntegral :
    (id : ℕ) (db db' : Db) (row : Product)
    → delete_product id db ≡ some (row, db')
    → IsIntegral db
    → IsIntegral db'
delete_product-IsIntegral id db db' row e h =
    let (in_carts, in_orders, same) = delete_product-deleted id db db' row e in
    subst IsIntegral same (
      set_products-IsIntegral db h (select (λ q. not (id == q.id)) db.products)
        (AreDistinct-select (λ (p : Product). p.id) (λ q. not (id == q.id)) db.products h.products)
        (Refer-deleted _ (λ (p : Product). p.id) id db.cart_items db.products in_carts
          h.item_products)
        (Refer-deleted _ (λ (p : Product). p.id) id db.order_items db.products in_orders
          h.ordered_products))

any_of-weaker :
    {A : Type 0} (p q r : A → Bool) (rows : List A)
    → any_of (λ row. p row || q row || r row) rows ≡ false
    → any_of p rows ≡ false
any_of-weaker p q r [] e = refl
any_of-weaker p q r (row ∷ rows) e = ground (arith, any_of-weaker p q r rows)

insert_user-added :
    (fresh : ℕ) (arg : InsertUserParams) (db db' : Db) (row : User)
    → insert_user fresh arg db ≡ some (row, db')
    → (elem row.id (user_ids db) ≡ false) × (record db { users = db.users ++ row ∷ [] } ≡ db')
unfolding insert_user
insert_user-added fresh arg db db' row e = ground (
  arith,
  any_of-elem (λ (u : User). u.id) fresh db.users,
  any_of-weaker (λ u. fresh == u.id) (λ u. str_eq arg.username u.username)
      (λ u. str_eq arg.email u.email) db.users,
)

pub insert_user-IsIntegral :
    (fresh : ℕ) (arg : InsertUserParams) (db db' : Db) (row : User)
    → insert_user fresh arg db ≡ some (row, db')
    → IsIntegral db
    → IsIntegral db'
insert_user-IsIntegral fresh arg db db' row e h =
    let (new, same) = insert_user-added fresh arg db db' row e in
    subst IsIntegral same (
      set_users-IsIntegral db h (db.users ++ row ∷ [])
        (AreDistinct-added (λ (u : User). u.id) db.users row new h.users)
        (Refer-added _ _ db.carts db.users row h.cart_users)
        (Refer-added _ _ db.orders db.users row h.order_users))
