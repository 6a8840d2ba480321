-- ===== src/Cart/Service.antt =====
-- CartService of cart/internal/service/cart.go.
use hedonify.Prelude.{ℕ, ◌+◌, Bool, true, false, List, [], ◌∷◌, Option, none, some, map, ◌==◌}
use mathlib.Core.Option
use hedonify.Prelude.Map.{lookup, insert, RangeOrder}
use hedonify.Repository.Models.{numeric_of}
use hedonify.Repository.Models
use hedonify.Repository.Carts.{
  CartRow, CartItemRow, InsertCartItemsParams, insert_cart, insert_cart_items, find_cart_by_id,
  find_cart_by_user_id, find_cart_item_by_id, delete_cart_by_id_and_user_id,
  delete_cart_item_from_carts_by_id,
}
use hedonify.Order.Request.{CreateOrder}
use hedonify.Service.World.{CartDocument, of_response, of_row, erase}
use hedonify.Service.Call.{
  ok, err, Outside, M, pure, raise, attempt, ◌>>=◌, ◌>>◌, read, read_all, write, cached, recache,
  ask, in_transaction, call_failed, mapping_failed, request_failed, not_created,
}
use hedonify.Cart.Request.{
  CartItem, Cart, FindCartById, RemoveCartItem, CheckoutCart, ItemResponse, CartResponse, order_of,
}
use hedonify.Cart.Merge.{merge_cart_items}

-- What the cart service takes from outside.
pub record CartHost : Type 0 where
  pub out : Outside
  pub range : RangeOrder CartItem
  -- json.Unmarshal at the items of a row, and at a cached document
  pub unmarshal : List Models.CartItem → Option (List ItemResponse)
  pub decode : CartDocument → Option CartResponse
  -- the status of GET /users/{id}, at a call
  pub find_user : ℕ → ℕ → Option ℕ
  -- the status of POST /orders/checkout, and whether the body is JSON
  pub checkout : CreateOrder → ℕ → Option (ℕ × Bool)

-- FindCartByIdRow.Response
unfoldable pub cart_response :
    (List Models.CartItem → Option (List ItemResponse)) → CartRow → Option CartResponse
cart_response unmarshal f =
    Option.map
      (λ items. record {
        id = f.id;
        user_id = f.user_id;
        cart_items = items;
        created_at = f.created_at.time;
        updated_at = f.updated_at.time;
      })
      (unmarshal f.cart_items)

abbrev pub or_raise : {A : Type 0} → Option A → M A
or_raise none = raise mapping_failed
or_raise (some a) = pure a

abbrev pub expect : ℕ → ℕ → M (Unit {0})
expect wanted status = elim (status == wanted) [ true ↦ pure tt | false ↦ raise request_failed ]

module _ (host : CartHost) where
  -- uuid.New()
  abbrev pub new_id : M ℕ
  new_id w = (ok (host.out.fresh w.calls), record w { calls = w.calls + 1 })

  -- The arguments of InsertCartItems.
  unfoldable pub cart_item_args : ℕ → List CartItem → M (List InsertCartItemsParams)
  cart_item_args cart_id [] = pure []
  cart_item_args cart_id (item ∷ items) = do
    id ← new_id
    rest ← cart_item_args cart_id items
    pure (
        record {
          id = id;
          cart_id = cart_id;
          product_id = item.product_id;
          quantity = item.quantity;
          price = numeric_of item.price;
        }
        ∷ rest)

  -- The request to the user service that InsertCart and CheckoutCart begin with.
  unfoldable pub require_user : ℕ → M (Unit {0})
  require_user user_id = do
    status ← ask host.out request_failed (host.find_user user_id)
    expect 200 status

  -- The commit of InsertCart: where it fails, the cached cart is deleted.
  unfoldable pub commit_cart : ℕ → M (Unit {0})
  commit_cart cart_id = do
    committed ← attempt (
        ask host.out call_failed
          (λ call. elim (host.out.down call) [ true ↦ none | false ↦ some tt ]))
    elim committed [
      | ok _ ↦ pure tt
      | err _ ↦ do
        attempt (recache host.out (λ c. record c { carts = erase cart_id c.carts }))
        raise call_failed
    ]

  -- The transaction of InsertCart.
  unfoldable pub insert_cart_body : Cart → ℕ → M CartResponse
  insert_cart_body param user_id = do
    cart ← write host.out (λ fresh now. insert_cart fresh now user_id)
    args ←
        cart_item_args cart.id
          (map (λ e. e.1) (host.range.range (merge_cart_items param.cart_items [])))
    write host.out (λ _ now db. Option.map (λ db'. (tt, db')) (insert_cart_items now args db))
    cart_db ← read host.out (find_cart_by_id user_id cart.id)
    response ← or_raise (cart_response host.unmarshal cart_db)
    recache host.out (λ c. record c { carts = insert cart.id (of_response response) c.carts })
    commit_cart cart.id
    pure response

  -- CartService.InsertCart
  unfoldable pub insert_cart_service : Cart → ℕ → M CartResponse
  insert_cart_service param user_id = do
    require_user user_id
    ask host.out call_failed (λ call. elim (host.out.down call) [ true ↦ none | false ↦ some tt ])
    in_transaction (insert_cart_body param user_id)

  -- FindCartById without a cached cart; the cart stands where the statement has the user.
  unfoldable pub find_uncached : FindCartById → M CartResponse
  find_uncached param = do
    cart ← read host.out (find_cart_by_id param.id param.user_id)
    recache host.out (λ c. record c { carts = insert param.id (of_row cart) c.carts })
    or_raise (cart_response host.unmarshal cart)

  -- CartService.FindCartById
  unfoldable pub find_cart_by_id_service : FindCartById → M CartResponse
  find_cart_by_id_service param = do
    document ← cached host.out (λ c. lookup param.id c.carts)
    elim document [ none ↦ find_uncached param | some d ↦ or_raise (host.decode d) ]

  -- CartService.FindCartByUserId: what is found in the cache is not read.
  unfoldable pub find_cart_by_user_id_service : ℕ → M (List CartItemRow)
  find_cart_by_user_id_service user_id = do
    document ← cached host.out (λ c. lookup user_id c.carts_by_user)
    elim document [
      | none ↦ do
        carts ← read_all host.out (find_cart_by_user_id user_id)
        recache host.out (λ c. record c { carts_by_user = insert user_id carts c.carts_by_user })
        pure carts
      | some _ ↦ pure []
    ]

  -- CartService.RemoveCartItem: the key of the cache is the format followed by the identifier.
  unfoldable pub remove_cart_item : RemoveCartItem → M (Unit {0})
  remove_cart_item param = do
    read host.out (find_cart_by_id param.cart_id param.user_id)
    read host.out (find_cart_item_by_id param.id)
    recache host.out (λ c. record c { carts_unformatted = erase param.cart_id c.carts_unformatted })
    write host.out (λ _ _. delete_cart_item_from_carts_by_id param.id param.cart_id)
    pure tt

  -- CartService.RemoveCart
  unfoldable pub remove_cart : FindCartById → M (Unit {0})
  remove_cart param = do
    find_cart_by_id_service param
    write host.out (λ _ _. delete_cart_by_id_and_user_id param.id param.user_id)
    recache host.out (λ c. record c { carts = erase param.id c.carts })

  -- The request to the order service in CheckoutCart.
  unfoldable pub require_order : CreateOrder → M (Unit {0})
  require_order order = do
    (status, is_json) ← ask host.out request_failed (host.checkout order)
    elim is_json [
      | false ↦ raise request_failed
      | true ↦ elim (status == 201) [ true ↦ pure tt | false ↦ raise not_created ]
    ]

  -- CartService.CheckoutCart
  unfoldable pub checkout_cart : CheckoutCart → M CartResponse
  checkout_cart param = do
    require_user param.user_id
    cart ← find_cart_by_id_service (record { id = param.cart_id; user_id = param.user_id })
    require_order (order_of cart)
    remove_cart (record { id = param.cart_id; user_id = param.user_id })
    pure cart
