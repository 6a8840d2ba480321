-- ===== src/Integrity/Carts.antt =====
-- CartService keeps the constraints of the tables.
use hedonify.Prelude.{ℕ, List, [], ◌∷◌, some, ◌==◌, ◌≡◌, ap, ◌∙◌, map-eq-some}
use mathlib.Core.Option
use hedonify.Repository.Models.{Db}
use hedonify.Repository.Integrity.{IsIntegral}
use hedonify.Repository.Carts.{InsertCartItemsParams, insert_cart_items}
use hedonify.Repository.Integrity.Carts.{
  insert_cart-IsIntegral, insert_cart_items-IsIntegral, delete_cart_item-IsIntegral,
  delete_cart-IsIntegral,
}
use hedonify.Service.Keeps.{
  Keeps, pure-Keeps, raise-Keeps, attempt-Keeps, bind-Keeps, in_transaction-Keeps, read-Keeps,
  write-Keeps, recache-Keeps, ask-Keeps, answer-Keeps, bool-Keeps,
}
use hedonify.Order.Request.{CreateOrder}
use hedonify.Cart.Request.{CartItem, Cart, FindCartById, RemoveCartItem, CheckoutCart}
use hedonify.Cart.Reads.{or_raise-Keeps, require_user-Keeps, find_cart_by_id_service-Keeps}
use hedonify.Cart.Service.{
  CartHost, cart_item_args, commit_cart, insert_cart_body, insert_cart_service, remove_cart_item,
  remove_cart, require_order, checkout_cart,
}

insert_items-Keeps :
    (now : ℕ) (args : List InsertCartItemsParams) (db db' : Db) (u : Unit {0})
    → Option.map {B = Unit {0} × Db} (λ d. (tt, d)) (insert_cart_items now args db) ≡ some (u, db')
    → IsIntegral db
    → IsIntegral db'
insert_items-Keeps now args db db' u e h =
    let (d, inserted, same) = map-eq-some (insert_cart_items now args db) _ e in
    insert_cart_items-IsIntegral now args db db' (inserted ∙ ap some (ap (λ p. p.1) same)) h

module _ (host : CartHost) where
  cart_item_args-Keeps :
      (cart_id : ℕ) (items : List CartItem) → Keeps IsIntegral (cart_item_args host cart_id items)
  unfolding cart_item_args
  cart_item_args-Keeps cart_id [] = pure-Keeps _
  cart_item_args-Keeps cart_id (item ∷ items) =
      bind-Keeps (record { keeps = λ w h. record { ensured = h } })
        (λ _. bind-Keeps (cart_item_args-Keeps cart_id items) (λ _. pure-Keeps _))

  commit_cart-Keeps : (cart_id : ℕ) → Keeps IsIntegral (commit_cart host cart_id)
  unfolding commit_cart
  commit_cart-Keeps cart_id = bind-Keeps (attempt-Keeps (ask-Keeps host.out _ _)) (
      answer-Keeps (λ _. pure-Keeps tt)
        (λ _. bind-Keeps (attempt-Keeps (recache-Keeps host.out _)) (λ _. raise-Keeps _)))

  insert_cart_body-Keeps :
      (param : Cart) (user_id : ℕ) → Keeps IsIntegral (insert_cart_body host param user_id)
  unfolding insert_cart_body
  insert_cart_body-Keeps param user_id =
      bind-Keeps
        (write-Keeps host.out _
          (λ fresh now db db' row e h. insert_cart-IsIntegral fresh now user_id db db' row e h))
        (λ cart. bind-Keeps (cart_item_args-Keeps cart.id _) (λ args.
          bind-Keeps
            (write-Keeps host.out _
              (λ fresh now db db' u e h. insert_items-Keeps now args db db' u e h))
            (λ _. bind-Keeps (read-Keeps host.out _) (λ cart_db.
              bind-Keeps (or_raise-Keeps _) (λ response.
                bind-Keeps (recache-Keeps host.out _)
                  (λ _. bind-Keeps (commit_cart-Keeps cart.id) (λ _. pure-Keeps _)))))))

  pub insert_cart_service-Keeps :
      (param : Cart) (user_id : ℕ) → Keeps IsIntegral (insert_cart_service host param user_id)
  unfolding insert_cart_service
  insert_cart_service-Keeps param user_id = bind-Keeps (require_user-Keeps host user_id) (λ _.
      bind-Keeps (ask-Keeps host.out _ _)
        (λ _. in_transaction-Keeps (insert_cart_body-Keeps param user_id)))

  pub remove_cart_item-Keeps :
      (param : RemoveCartItem) → Keeps IsIntegral (remove_cart_item host param)
  unfolding remove_cart_item
  remove_cart_item-Keeps param = bind-Keeps (read-Keeps host.out _) (λ _.
      bind-Keeps (read-Keeps host.out _) (λ _. bind-Keeps (recache-Keeps host.out _) (λ _.
        bind-Keeps
          (write-Keeps host.out _ (λ fresh now db db' row e h.
            delete_cart_item-IsIntegral param.id param.cart_id db db' row e h))
          (λ _. pure-Keeps tt))))

  pub remove_cart-Keeps : (param : FindCartById) → Keeps IsIntegral (remove_cart host param)
  unfolding remove_cart
  remove_cart-Keeps param = bind-Keeps (find_cart_by_id_service-Keeps host param) (λ _.
      bind-Keeps
        (write-Keeps host.out _ (λ fresh now db db' row e h.
          delete_cart-IsIntegral param.id param.user_id db db' row e h))
        (λ _. recache-Keeps host.out _))

  require_order-Keeps : (order : CreateOrder) → Keeps IsIntegral (require_order host order)
  unfolding require_order
  require_order-Keeps order = bind-Keeps (ask-Keeps host.out _ _) (λ answer.
      bool-Keeps (bool-Keeps (pure-Keeps tt) (raise-Keeps _) (answer.0 == 201)) (raise-Keeps _)
        answer.1)

  pub checkout_cart-Keeps : (param : CheckoutCart) → Keeps IsIntegral (checkout_cart host param)
  unfolding checkout_cart
  checkout_cart-Keeps param = bind-Keeps (require_user-Keeps host param.user_id) (λ _.
      bind-Keeps (find_cart_by_id_service-Keeps host _) (λ cart.
        bind-Keeps (require_order-Keeps _)
          (λ _. bind-Keeps (remove_cart-Keeps _) (λ _. pure-Keeps cart))))
