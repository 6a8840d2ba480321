-- ===== src/Cart/Controller.antt =====
-- cart/internal/controller/cart.go.
pub mod Access
pub mod Tests
use Prim.Native.String.{String}
use hedonify.Prelude.{ℕ, Bool, List, [], ◌∷◌, Option}
use hedonify.Service.World.{World}
use hedonify.Http.Message.{
  Context, Request, success, Act, Handler, go_on, path_var, ◌>>=◌, ◌>>◌, write_json_response,
  or_failed, require, or_failed_call,
}
use hedonify.Http.Token.{HttpHost, user_id_from_jwt_token}
use hedonify.Http.Middleware.{logging, recover_panic, auth, Route}
use hedonify.Cart.Request.{Cart, FindCartById, RemoveCartItem, CheckoutCart, CartResponse}
use hedonify.Cart.Service.{
  CartHost, insert_cart_service, find_cart_by_id_service, remove_cart_item, checkout_cart,
}

pub record CartHttp : Type 0 where
  pub http : HttpHost World
  pub service : CartHost
  -- json.Decoder.Decode of a body, and Validate.StructCtx without an error
  pub decode_cart : String → Option Cart
  pub is_valid : Cart → Bool

module _ (host : CartHttp) where
  -- The user of the token, as three of the handlers ask for it.
  unfoldable pub user_of : Context → Act World CartResponse ℕ
  user_of c = do parsed ← user_id_from_jwt_token host.http c; or_failed c 400 parsed

  unfoldable pub insert_cart_handler : Handler World CartResponse
  insert_cart_handler r = do
    req_body ← or_failed r.context 400 (host.decode_cart r.body)
    require r.context 400 (host.is_valid req_body)
    user_id ← user_of r.context
    cart ← or_failed_call r.context 400 (insert_cart_service host.service req_body user_id)
    write_json_response r.context 200 (success cart)

  unfoldable pub find_cart_by_id_handler : Handler World CartResponse
  find_cart_by_id_handler r = do
    cart_id ← or_failed r.context 400 (host.http.parse_uuid (path_var "cartId" r))
    user_id ← user_of r.context
    cart ←
        or_failed_call r.context 400
          (find_cart_by_id_service host.service (record { id = cart_id; user_id = user_id }))
    write_json_response r.context 200 (success cart)

  -- The request names no user, and nothing is written when the item is removed.
  unfoldable pub remove_cart_item_handler : Handler World CartResponse
  remove_cart_item_handler r = do
    cart_id ← or_failed r.context 400 (host.http.parse_uuid (r.path_value "cartId"))
    cart_item_id ← or_failed r.context 400 (host.http.parse_uuid (r.path_value "cartItemId"))
    or_failed_call r.context 500 (
        remove_cart_item host.service
          (record { id = cart_item_id; cart_id = cart_id; user_id = 0 }))

  unfoldable pub checkout_cart_handler : Handler World CartResponse
  checkout_cart_handler r = do
    cart_id ← or_failed r.context 400 (host.http.parse_uuid (path_var "cartId" r))
    user_id ← user_of r.context
    cart ←
        or_failed_call r.context 400
          (checkout_cart host.service (record { user_id = user_id; cart_id = cart_id }))
    write_json_response r.context 200 (success cart)

  -- AttachCartController
  unfoldable pub cart_router :
      Handler World CartResponse → String → String → Route World CartResponse
  cart_router handler method pattern = record {
    method = method;
    pattern = pattern;
    middlewares = logging host.http ∷ recover_panic ∷ auth host.http ∷ [];
    handler = handler;
  }

  unfoldable pub cart_routes : List (Route World CartResponse)
  cart_routes =
      cart_router insert_cart_handler "POST" "/carts"
      ∷ cart_router checkout_cart_handler "POST" "/carts/{cartId}/checkout"
      ∷ cart_router find_cart_by_id_handler "GET" "/carts/{cartId}"
      ∷ cart_router remove_cart_item_handler "DELETE" "/carts/{cartId}/{cartItemId}"
      ∷ []
