-- ===== src/Repository/Integrity/Carts.antt =====
-- The statements on carts keep the constraints.
use hedonify.Prelude.{
  ℕ, ◌≡◌, inl, inr, Bool, true, false, not, List, [], ◌∷◌, ◌++◌, map, elem, select, arith, ◌==◌,
  ==_iff, ◌&&◌, Bool-cases, subst, some, bind-eq-some,
}
use hedonify.Repository.Models.{Db, User, Product, Cart, CartItem, timestamptz_of}
use hedonify.Repository.Integrity.{
  Refer, user_ids, product_ids, cart_ids, cart_item_ids, IsIntegral,
}
use hedonify.Repository.Integrity.Tables.{set_carts-IsIntegral, set_cart_items-IsIntegral}
use hedonify.Repository.Integrity.Keys.{
  any_of-elem, AreDistinct-added, AreDistinct-select, elem-select, All-added, All-select,
  Refer-added,
}
use hedonify.Repository.Carts.{
  insert_cart, InsertCartItemsParams, insert_cart_item_row, insert_cart_items,
  delete_cart_by_id_and_user_id, delete_cart_item_from_carts_by_id,
}

insert_cart-added :
    (fresh now user_id : ℕ) (db db' : Db) (row : Cart)
    → insert_cart fresh now user_id db ≡ some (row, db')
    → (elem row.id (cart_ids db) ≡ false)
      × (elem row.user_id (user_ids db) ≡ true)
      × (record db { carts = db.carts ++ row ∷ [] } ≡ db')
unfolding insert_cart
insert_cart-added fresh now user_id db db' row e = ground (
  arith,
  any_of-elem (λ (c : Cart). c.id) fresh db.carts,
  any_of-elem (λ (u : User). u.id) user_id db.users,
)

pub insert_cart-IsIntegral :
    (fresh now user_id : ℕ) (db db' : Db) (row : Cart)
    → insert_cart fresh now user_id db ≡ some (row, db')
    → IsIntegral db
    → IsIntegral db'
insert_cart-IsIntegral fresh now user_id db db' row e h =
    let (new, user, same) = insert_cart-added fresh now user_id db db' row e in
    subst IsIntegral same (
      set_carts-IsIntegral db h (db.carts ++ row ∷ [])
        (AreDistinct-added (λ (c : Cart). c.id) db.carts row new h.carts)
        (All-added _ db.carts row h.cart_users user)
        (Refer-added _ _ db.cart_items db.carts row h.item_carts))

insert_cart_item_row-added :
    (now : ℕ) (arg : InsertCartItemsParams) (db db' : Db)
    → insert_cart_item_row now arg db ≡ some db'
    → (row : CartItem) × ((elem row.id (cart_item_ids db) ≡ false)
        × (elem row.cart_id (cart_ids db) ≡ true)
        × (elem row.product_id (product_ids db) ≡ true)
        × (record db { cart_items = db.cart_items ++ row ∷ [] } ≡ db'))
unfolding insert_cart_item_row
insert_cart_item_row-added now arg db db' e = (
  record {
    id = arg.id;
    cart_id = arg.cart_id;
    product_id = arg.product_id;
    quantity = arg.quantity;
    price = arg.price;
    created_at = timestamptz_of now;
    updated_at = timestamptz_of now;
  },
  ground (
    arith,
    any_of-elem (λ (i : CartItem). i.id) arg.id db.cart_items,
    any_of-elem (λ (c : Cart). c.id) arg.cart_id db.carts,
    any_of-elem (λ (p : Product). p.id) arg.product_id db.products,
  ),
)

pub insert_cart_items-IsIntegral :
    (now : ℕ) (args : List InsertCartItemsParams) (db db' : Db)
    → insert_cart_items now args db ≡ some db'
    → IsIntegral db
    → IsIntegral db'
unfolding insert_cart_items
insert_cart_items-IsIntegral now [] db db' e h = subst IsIntegral (ground arith) h
insert_cart_items-IsIntegral now (arg ∷ args) db db' e h =
    let (d, one, rest) =
      bind-eq-some (insert_cart_item_row now arg db) (insert_cart_items now args) e in
    let (row, (new, cart, product, same)) = insert_cart_item_row-added now arg db d one in
    insert_cart_items-IsIntegral now args d db' rest (
      subst IsIntegral same (
        set_cart_items-IsIntegral db h (db.cart_items ++ row ∷ [])
          (AreDistinct-added (λ (i : CartItem). i.id) db.cart_items row new h.cart_items)
          (All-added _ db.cart_items row h.item_carts cart)
          (All-added _ db.cart_items row h.item_products product)))

-- Fewer items of carts.
fewer_cart_items-IsIntegral :
    (test : CartItem → Bool) (db : Db)
    → IsIntegral db
    → IsIntegral (record db { cart_items = select test db.cart_items })
fewer_cart_items-IsIntegral test db h =
    set_cart_items-IsIntegral db h (select test db.cart_items)
      (AreDistinct-select (λ (i : CartItem). i.id) test db.cart_items h.cart_items)
      (All-select _ test db.cart_items h.item_carts)
      (All-select _ test db.cart_items h.item_products)

delete_cart_item-deleted :
    (id cart_id : ℕ) (db db' : Db) (row : CartItem)
    → delete_cart_item_from_carts_by_id id cart_id db ≡ some (row, db')
    → record db {
      cart_items = select (λ k. not (id == k.id && cart_id == k.cart_id)) db.cart_items;
    }
      ≡ db'
unfolding delete_cart_item_from_carts_by_id
delete_cart_item-deleted id cart_id db db' row e = ground arith

pub delete_cart_item-IsIntegral :
    (id cart_id : ℕ) (db db' : Db) (row : CartItem)
    → delete_cart_item_from_carts_by_id id cart_id db ≡ some (row, db')
    → IsIntegral db
    → IsIntegral db'
delete_cart_item-IsIntegral id cart_id db db' row e h =
    subst IsIntegral (delete_cart_item-deleted id cart_id db db' row e)
      (fewer_cart_items-IsIntegral (λ k. not (id == k.id && cart_id == k.cart_id)) db h)

-- The items that are left when a cart goes refer to carts that stay.
cascaded :
    (id user_id : ℕ) (items : List CartItem) (carts : List Cart)
    → Refer (λ (i : CartItem). i.cart_id) items (map (λ (c : Cart). c.id) carts)
    → Refer
        (λ (i : CartItem). i.cart_id)
        (select (λ i. not (id == i.cart_id)) items)
        (map (λ (c : Cart). c.id) (select (λ k. not (id == k.id && user_id == k.user_id)) carts))
cascaded id user_id [] carts h = tt
cascaded id user_id (i ∷ items) carts h = elim (Bool-cases (id == i.cart_id)) [
  | inl yes' ↦ rw yes' (cascaded id user_id items carts h.1)
  | inr no' ↦ rw no' (
    elem-select (λ (c : Cart). c.id) i.cart_id (λ k. not (id == k.id && user_id == k.user_id)) carts
        (λ k e. ground (arith, ==_iff i.cart_id k.id, no')) h.0,
    cascaded id user_id items carts h.1,
  )
]

delete_cart-deleted :
    (id user_id : ℕ) (db db' : Db) (row : Cart)
    → delete_cart_by_id_and_user_id id user_id db ≡ some (row, db')
    → record db {
      carts = select (λ k. not (id == k.id && user_id == k.user_id)) db.carts;
      cart_items = select (λ i. not (id == i.cart_id)) db.cart_items;
    }
      ≡ db'
unfolding delete_cart_by_id_and_user_id
delete_cart-deleted id user_id db db' row e = ground arith

pub delete_cart-IsIntegral :
    (id user_id : ℕ) (db db' : Db) (row : Cart)
    → delete_cart_by_id_and_user_id id user_id db ≡ some (row, db')
    → IsIntegral db
    → IsIntegral db'
delete_cart-IsIntegral id user_id db db' row e h =
    let fewer = fewer_cart_items-IsIntegral (λ i. not (id == i.cart_id)) db h in
    subst IsIntegral (delete_cart-deleted id user_id db db' row e) (
      set_carts-IsIntegral
        (record db { cart_items = select (λ i. not (id == i.cart_id)) db.cart_items }) fewer
        (select (λ k. not (id == k.id && user_id == k.user_id)) db.carts)
        (AreDistinct-select (λ (c : Cart). c.id) (λ k. not (id == k.id && user_id == k.user_id))
          db.carts h.carts)
        (All-select _ (λ k. not (id == k.id && user_id == k.user_id)) db.carts h.cart_users)
        (cascaded id user_id db.cart_items db.carts h.item_carts))
