-- ===== src/Order/Controller.antt =====
-- order/internal/controller/order.go.
pub mod Checkout
pub mod AnyUser
pub mod Queries
pub mod Tests
use Prim.Native.String.{String}
use hedonify.Prelude.{ℕ, Bool, true, false, List, [], ◌∷◌, ◌++◌, Option, none, some}
use hedonify.Repository.Models
use hedonify.Repository.Models.{Order}
use hedonify.Service.World.{World}
use hedonify.Service.Call.{Outside, M, ok, err}
use hedonify.Order.Request.{
  CreateOrder, FindOrderById, FindOrders, ItemResponse, OrderResponse, Error, Result,
}
use hedonify.Order.Queries.{find_order_by_id_service, find_orders}
use hedonify.Http.Message.{
  Context, Request, failed, success, Act, Handler, next, go_on, return_empty, path_var, ◌>>=◌, ◌>>◌,
  write_json_response, or_failed, require,
}
use hedonify.Http.Token.{HttpHost, user_id_from_jwt_token}
use hedonify.Http.Middleware.{logging, recover_panic, auth, Route}

-- The "data" of the replies.
pub data OrderData : Type 0 where
  order_of : OrderResponse → OrderData
  orders_of : List Order → OrderData

-- What the service reads, and the orders that were sent on the worker's queue.
pub record OrderState : Type 0 where
  pub world : World
  pub queue : List CreateOrder

pub record OrderHttp : Type 0 where
  pub http : HttpHost OrderState
  pub out : Outside
  pub unmarshal : List Models.OrderItem → Option (List ItemResponse)
  -- json.Decoder.Decode of a body, and Validate.StructCtx without an error
  pub decode_order : String → Option CreateOrder
  pub is_valid : CreateOrder → Bool
  -- trace.LinkFromContext, and the address of a new channel
  pub trace_link : OrderState → ℕ
  pub new_channel : OrderState → ℕ
  -- the first select: whether the queue takes the order before three seconds have passed
  pub takes : CreateOrder → OrderState → Bool
  -- the second: what comes on the result channel before that
  pub receives : CreateOrder → OrderState → Option Result

-- The error of a service's call, on the state of the order service.
unfoldable pub or_failed_query : {A : Type 0} → Context → ℕ → M A → Act OrderState OrderData A
or_failed_query c status m s =
    let (r, w) = m s.world in
    elim r [
      | ok a ↦ (next a, record s { world = w })
      | err _ ↦ write_json_response c status failed (record s { world = w })
    ]

module _ (host : OrderHttp) where
  -- A bad identifier is logged and nothing is written.
  unfoldable pub order_id_of : Request → Act OrderState OrderData ℕ
  order_id_of r = elim (host.http.parse_uuid (path_var "orderId" r)) [
    | none ↦ return_empty
    | some id ↦ go_on id
  ]

  -- The request names no user.
  unfoldable pub find_order_by_id_handler : Handler OrderState OrderData
  find_order_by_id_handler r = do
    order_id ← order_id_of r
    orders ← or_failed_query r.context 400 (
        find_order_by_id_service host.out host.unmarshal
          (record { user_id = 0; order_id = order_id }))
    write_json_response r.context 200 (success (order_of orders))

  unfoldable pub find_orders_handler : Handler OrderState OrderData
  find_orders_handler r = do
    user_id ← or_failed r.context 400 (host.http.parse_uuid (r.query "userId"))
    order_id ← or_failed r.context 400 (host.http.parse_uuid (r.query "orderId"))
    orders ←
        or_failed_query r.context 400
          (find_orders host.out (record { user_id = user_id; order_id = order_id }))
    write_json_response r.context 200 (success (orders_of orders))

  unfoldable pub reply_to :
      Context → Option Error → OrderResponse → Act OrderState OrderData (Unit {0})
  reply_to c (some _) order = write_json_response c 400 failed
  reply_to c none order = write_json_response c 201 (success (order_of order))

  -- The second select. What the worker does meanwhile is not part of the state here.
  unfoldable pub reply_result : Context → Option Result → Act OrderState OrderData (Unit {0})
  reply_result c none = write_json_response c 500 failed
  reply_result c (some result) = reply_to c result.err result.order

  -- The first select.
  unfoldable pub send : Context → CreateOrder → Bool → Act OrderState OrderData (Unit {0})
  send c param false s = write_json_response c 500 failed s
  send c param true s =
      let s' : OrderState = record s { queue = s.queue ++ param ∷ [] } in
      reply_result c (host.receives param s') s'

  unfoldable pub submit : Context → CreateOrder → Act OrderState OrderData (Unit {0})
  submit c param s = send c param (host.takes param s) s

  -- The order as it is sent: its trace link and its result channel are filled in.
  unfoldable pub prepared : OrderState → CreateOrder → CreateOrder
  prepared s param = record param {
    trace_link = host.trace_link s;
    result_channel = host.new_channel s;
  }

  -- The validation, and what follows it.
  unfoldable pub checkout : Context → CreateOrder → Act OrderState OrderData (Unit {0})
  checkout c param s =
      (require c 400 (host.is_valid (record param { trace_link = host.trace_link s }))
          >> submit c (prepared s param))
        s

  -- The user of the token is asked for and not used.
  unfoldable pub checkout_handler : Handler OrderState OrderData
  checkout_handler r = do
    parsed ← user_id_from_jwt_token host.http r.context
    user_id ← or_failed r.context 400 parsed
    param ← or_failed r.context 400 (host.decode_order r.body)
    checkout r.context param

  -- AttachOrderController
  unfoldable pub order_router :
      Handler OrderState OrderData → String → String → Route OrderState OrderData
  order_router handler method pattern = record {
    method = method;
    pattern = pattern;
    middlewares = logging host.http ∷ recover_panic ∷ auth host.http ∷ [];
    handler = handler;
  }

  unfoldable pub order_routes : List (Route OrderState OrderData)
  order_routes =
      order_router find_orders_handler "GET" "/orders"
      ∷ order_router find_order_by_id_handler "GET" "/orders/{orderId}"
      ∷ order_router checkout_handler "POST" "/orders/checkout"
      ∷ []
