-- ===== src/Product/Controller.antt =====
-- product/internal/controller/product.go.
pub mod Refusals
pub mod Answers
pub mod Tests
use Prim.Native.String.{String}
use hedonify.Prelude.{ℕ, Bool, List, [], ◌∷◌, Option}
use hedonify.Repository.Models.{Product}
use hedonify.Service.World.{World}
use hedonify.Service.Call.{Outside}
use hedonify.Product.Request.{ProductRequest, ProductResponse}
use hedonify.Product.Service.{
  Decode, insert_product_service, get_products, find_product_by_id_service, update_product_service,
  remove_product,
}
use hedonify.Http.Message.{
  Request, success, Act, go_on, Handler, path_var, ◌>>=◌, ◌>>◌, write_json_response, or_failed,
  require, or_failed_call,
}
use hedonify.Http.Token.{HttpHost}
use hedonify.Http.Middleware.{logging, recover_panic, auth, Route}

-- The "data" of the replies.
pub data ProductData : Type 0 where
  product_of : ProductResponse → ProductData
  row_of : Product → ProductData
  products_of : List Product → ProductData

pub record ProductHost : Type 0 where
  pub http : HttpHost World
  pub out : Outside
  pub decode : Decode
  -- json.Decoder.Decode of a body, and Validate.StructCtx without an error
  pub decode_body : String → Option ProductRequest
  pub is_valid : ProductRequest → Bool

module _ (host : ProductHost) where
  -- The identifier of a route, and the validated body, as three of the handlers begin.
  unfoldable pub body_of : Request → Act World ProductData ProductRequest
  body_of r = do
    req_body ← or_failed r.context 400 (host.decode_body r.body)
    require r.context 400 (host.is_valid req_body)
    go_on req_body

  unfoldable pub insert_product_handler : Handler World ProductData
  insert_product_handler r = do
    req_body ← body_of r
    product ← or_failed_call r.context 400 (insert_product_service host.out req_body)
    write_json_response r.context 200 (success (product_of product))

  unfoldable pub get_products_handler : Handler World ProductData
  get_products_handler r = do
    products ← or_failed_call r.context 400 (get_products host.out)
    write_json_response r.context 200 (success (products_of products))

  unfoldable pub find_product_by_id_handler : Handler World ProductData
  find_product_by_id_handler r = do
    id ← or_failed r.context 400 (host.http.parse_uuid (path_var "productId" r))
    product ← or_failed_call r.context 400 (find_product_by_id_service host.out host.decode id)
    write_json_response r.context 200 (success (product_of product))

  unfoldable pub remove_product_handler : Handler World ProductData
  remove_product_handler r = do
    id ← or_failed r.context 400 (host.http.parse_uuid (r.path_value "productId"))
    req_body ← body_of r
    product ← or_failed_call r.context 400 (remove_product host.out id)
    write_json_response r.context 200 (success (row_of product))

  unfoldable pub update_product_handler : Handler World ProductData
  update_product_handler r = do
    id ← or_failed r.context 400 (host.http.parse_uuid (r.path_value "productId"))
    req_body ← body_of r
    product ← or_failed_call r.context 400 (update_product_service host.out id req_body)
    write_json_response r.context 200 (success (row_of product))

  -- AttachProductController: the router of POST has no middleware.
  unfoldable pub product_router :
      Handler World ProductData → String → String → Route World ProductData
  product_router handler method pattern = record {
    method = method;
    pattern = pattern;
    middlewares = logging host.http ∷ recover_panic ∷ auth host.http ∷ [];
    handler = handler;
  }

  unfoldable pub post_route : Route World ProductData
  post_route = record {
    method = "POST";
    pattern = "/products";
    middlewares = [];
    handler = insert_product_handler;
  }

  unfoldable pub product_routes : List (Route World ProductData)
  product_routes =
      product_router get_products_handler "GET" "/products"
      ∷ product_router find_product_by_id_handler "GET" "/products/{productId}"
      ∷ product_router remove_product_handler "DELETE" "/products/{productId}"
      ∷ product_router update_product_handler "PUT" "/products/{productId}"
      ∷ post_route
      ∷ []
