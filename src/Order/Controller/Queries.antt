-- ===== src/Order/Controller/Queries.antt =====
-- The routes that read orders.
use hedonify.Prelude.{ℕ, List, ◌≡◌, refl, sym, ap, ◌∙◌, Option, none, some}
use hedonify.Repository.Models.{Order}
use hedonify.Repository.Orders.{find_order_user_id}
use hedonify.Service.World.{World}
use hedonify.Service.Call.{Answer, ok, err, M}
use hedonify.Service.Rules.{Ensures, read_all-Ensures, err-ne-ok, ok-injective}
use hedonify.Order.Request.{OrderResponse, FindOrders}
use hedonify.Order.Queries.{find_orders}
use hedonify.Order.Queries.Owner.{find_order_by_id_service-answers}
use hedonify.Http.Message.{
  Context, Request, failed, success, empty, path_var, Flow, next, replied, Act, ◌>>=◌,
  write_json_response,
}
use hedonify.Http.Success.{body?, Gives, write-Gives, write_failed-Gives, or_failed-Gives}
use hedonify.Http.Given.{arriving, guarded-Gives}
use hedonify.Http.Middleware.{serve}
use hedonify.Order.Controller.{
  OrderData, order_of, orders_of, OrderState, OrderHttp, or_failed_query, order_id_of,
  find_order_by_id_handler, find_orders_handler, order_router,
}

or_failed_query-Gives :
    {A C : Type 0} (c : Context) (status : ℕ) (m : M C) (f : C → Act OrderState OrderData A)
    (s : OrderState) (d : OrderData)
    → Gives ((or_failed_query c status m >>= f) s).0 d
    → (a : C) × ((m s.world).0 ≡ ok a) × Gives (f a (record s { world = (m s.world).1 })).0 d
unfolding or_failed_query ◌>>=◌
or_failed_query-Gives {A} {C} c status m f s d = go (m s.world)
  where
    go :
        (x : Answer C × World)
        → Gives
            (((λ (v : OrderState). elim x.0 as (λ y. Flow OrderData C × OrderState) [
              | ok a ↦ (next a, record s { world = x.1 })
              | err _ ↦ write_json_response c status failed (record s { world = x.1 })
            ])
                >>= f)
              s).0
            d
        → (a : C) × (x.0 ≡ ok a) × Gives (f a (record s { world = x.1 })).0 d
    go (ok a, v) e = (a, refl, e)
    go (err a, v) e = absurd (write_failed-Gives c status f (record s { world = v }) d e)

module _ (host : OrderHttp) where
  order_id_of-Gives :
      (q : Request) (f : ℕ → Act OrderState OrderData (Unit {0})) (s : OrderState) (d : OrderData)
      → Gives ((order_id_of host q >>= f) s).0 d
      → (id : ℕ) × Gives (f id s).0 d
  unfolding order_id_of ◌>>=◌ body?
  order_id_of-Gives q f s d = go (host.http.parse_uuid (path_var "orderId" q))
    where
      go :
          (o : Option ℕ)
          → Gives
              (((elim o as (λ x. Act OrderState OrderData ℕ) [
                | none ↦ λ t. (replied empty, t)
                | some id ↦ λ t. (next id, t)
              ])
                  >>= f)
                s).0
              d
          → (id : ℕ) × Gives (f id s).0 d
      go none e = cc
      go (some id) e = (id, e)

  abbrev IsRows : FindOrders → World → Answer (List Order) → World → Type 0
  IsRows param w r v = (os : List Order) → r ≡ ok os → os ≡ find_order_user_id param.user_id w.db

  find_orders-rows :
      (param : FindOrders) (w : World) (orders : List Order)
      → (find_orders host.out param w).0 ≡ ok orders
      → orders ≡ find_order_user_id param.user_id w.db
  unfolding find_orders
  find_orders-rows param w orders =
      Ensures.ensured
        (read_all-Ensures host.out (find_order_user_id param.user_id) {w = w} {Q = IsRows param w}
          (λ e os k. absurd (err-ne-ok e os k)) (λ os k. sym (ok-injective k)))
        orders

  -- GET /orders/{orderId} replies with no order but one of the user whose identifier is zero, whoever
  -- asks.
  find_order_by_id_route-nobody :
      (r : Request) (s : OrderState) (order : OrderResponse)
      → Gives
          (serve
            (order_router host (find_order_by_id_handler host) "GET" "/orders/{orderId}")
            r
            s).0
          (order_of order)
      → order.user_id ≡ 0
  unfolding serve order_router find_order_by_id_handler
  find_order_by_id_route-nobody r s order gives =
      let (token, jwt, found, verified, gives1, _) =
        guarded-Gives host.http (find_order_by_id_handler host) r s (order_of order) gives in
      let q = arriving host.http jwt r s in
      let (order_id, gives2) = order_id_of-Gives q _ s (order_of order) gives1 in
      let (answer, answered, gives3) =
        or_failed_query-Gives q.context 400 _ _ s (order_of order) gives2 in
      let shown = write-Gives q.context 200 (success (order_of answer)) _ (order_of order) gives3 in
      let (user, _, _) =
        find_order_by_id_service-answers host.out host.unmarshal
          (record { user_id = 0; order_id = order_id }) s.world answer answered in
      let same : order ≡ answer = cc in ap (λ o. o.user_id) same ∙ user

  -- The orders that GET /orders replies with are those of the user in the query, who need not be the
  -- user of the token; the request had a token that the parser accepts.
  find_orders_route-rows :
      (r : Request) (s : OrderState) (d : OrderData)
      → Gives (serve (order_router host (find_orders_handler host) "GET" "/orders") r s).0 d
      → (user_id : ℕ) × (host.http.parse_uuid (r.query "userId") ≡ some user_id)
        × (d ≡ orders_of (find_order_user_id user_id s.world.db))
  unfolding serve order_router find_orders_handler
  find_orders_route-rows r s d gives =
      let (token, jwt, found, verified, gives1, _) =
        guarded-Gives host.http (find_orders_handler host) r s d gives in
      let q = arriving host.http jwt r s in
      let (user_id, user, gives2) = or_failed-Gives q.context 400 _ _ s d gives1 in
      let (order_id, named, gives3) = or_failed-Gives q.context 400 _ _ s d gives2 in
      let (orders, answered, gives4) = or_failed_query-Gives q.context 400 _ _ s d gives3 in
      let shown = write-Gives q.context 200 (success (orders_of orders)) _ d gives4 in
      let rows =
        find_orders-rows (record { user_id = user_id; order_id = order_id }) s.world orders
          answered in
      (user_id, user, cc)
