-- ===== src/Order/Controller/Checkout.antt =====
-- Checkout: what is queued, and for whom a reply with an order stands.
use Prim.Native.String.{String}
use mathlib.Core.List.{Memᴰ}
use mathlib.Core.List.Memᴰ
use hedonify.Prelude.{
  ℕ, ◌≡◌, refl, sym, subst, ap, ◌∙◌, Bool, true, false, [], ◌∷◌, ◌++◌, Option, none, some,
}
use hedonify.User.Service.{Claims}
use hedonify.Order.Request.{CreateOrder, OrderResponse, Error, Result}
use hedonify.Http.Message.{Context, Request, failed, success, Flow, next, require}
use hedonify.Http.Token.{second_part, verify_token, user_id_from_jwt_token}
use hedonify.Http.Runs.{bind_next, or_failed-some}
use hedonify.Http.Success.{Gives, write-state, write-Gives, or_failed-Gives, require-Gives}
use hedonify.Http.Given.{arriving, guarded-Gives}
use hedonify.Http.Middleware.{logging, recover_panic, auth, Route, serve}
use hedonify.Http.Access.{HasNoToken, IsRefusal, routed-refuses}
use hedonify.Order.Controller.{
  OrderData, order_of, OrderState, OrderHttp, reply_to, reply_result, send, submit, prepared,
  checkout, checkout_handler, order_router, order_routes,
}

module _ (host : OrderHttp) where
  order_routes-guarded :
      (route : Route OrderState OrderData)
      → Memᴰ route (order_routes host)
      → route.middlewares ≡ logging host.http ∷ recover_panic ∷ auth host.http ∷ []
  unfolding order_routes order_router
  order_routes-guarded route (Memᴰ.head e) = ap (λ x. x.middlewares) e
  order_routes-guarded route (Memᴰ.tail (Memᴰ.head e)) = ap (λ x. x.middlewares) e
  order_routes-guarded route (Memᴰ.tail (Memᴰ.tail (Memᴰ.head e))) = ap (λ x. x.middlewares) e
  order_routes-guarded route (Memᴰ.tail (Memᴰ.tail (Memᴰ.tail m))) = absurd (Memᴰ.not-nil m)

  -- Without a token that the parser accepts, every order route leaves the tables, the cache and the
  -- queue as they are, and replies 401 or 500.
  pub order_routes-refuse :
      (route : Route OrderState OrderData) (r : Request) (s : OrderState)
      → Memᴰ route (order_routes host)
      → HasNoToken host.http r s
      → ((serve route r s).1 ≡ s) × IsRefusal (serve route r s).0
  order_routes-refuse route r s member none_valid =
      routed-refuses host.http route (order_routes-guarded route member) r s none_valid

  asks_user :
      (c : Context) (s : OrderState) (jwt : Claims)
      → c.jwt_token ≡ some jwt
      → user_id_from_jwt_token host.http {B = OrderData} c s
        ≡ (next (host.http.parse_uuid jwt.subject), s)
  unfolding user_id_from_jwt_token
  asks_user c s jwt has = rw (has) refl

  -- The run of Checkout's handler for an order that can be decoded.
  pub checkout_handler-decoded :
      (q : Request) (s : OrderState) (jwt : Claims) (user_id : ℕ) (param : CreateOrder)
      → q.context.jwt_token ≡ some jwt
      → host.http.parse_uuid jwt.subject ≡ some user_id
      → host.decode_order q.body ≡ some param
      → checkout_handler host q s ≡ checkout host q.context param s
  unfolding checkout_handler
  checkout_handler-decoded q s jwt user_id param token user decoded =
      bind_next _ _ s (host.http.parse_uuid jwt.subject) s (asks_user q.context s jwt token)
      ∙ bind_next _ _ s user_id s (or_failed-some q.context 400 _ s user_id user)
      ∙ bind_next _ _ s param s (or_failed-some q.context 400 _ s param decoded)

  -- What an order in the reply of the selects tells.
  reply_to-Gives :
      (c : Context) (e : Option Error) (order : OrderResponse) (s : OrderState) (d : OrderData)
      → Gives (reply_to host c e order s).0 d
      → (e ≡ none) × (d ≡ order_of order) × ((reply_to host c e order s).1 ≡ s)
  unfolding reply_to
  reply_to-Gives c (some e) order s d gives = let f = write-Gives c 400 failed s d gives in cc
  reply_to-Gives c none order s d gives =
      let f = write-Gives c 201 (success (order_of order)) s d gives in
      (refl, cc, write-state c 201 (success (order_of order)) s)

  -- The rest of the order's way after it has been sent.
  abbrev pub IsAnswered :
      CreateOrder → OrderState → OrderData → Flow OrderData (Unit {0}) × OrderState → Type 0
  IsAnswered param s d x =
      let s' : OrderState = record s { queue = s.queue ++ param ∷ [] } in
      (result : Result) × (host.receives param s' ≡ some result)
      × (result.err ≡ none)
      × (d ≡ order_of result.order)
      × (x.1 ≡ s')

  received-Gives :
      (c : Context) (o : Option Result) (s : OrderState) (d : OrderData)
      → Gives (reply_result host c o s).0 d
      → (result : Result) × (o ≡ some result)
        × (result.err ≡ none)
        × (d ≡ order_of result.order)
        × ((reply_result host c o s).1 ≡ s)
  unfolding reply_result
  received-Gives c none s d gives = let f = write-Gives c 500 failed s d gives in cc
  received-Gives c (some result) s d gives =
      let (no_error, order, kept) = reply_to-Gives c result.err result.order s d gives in
      (result, refl, no_error, order, kept)

  send-Gives :
      (c : Context) (param : CreateOrder) (taken : Bool) (s : OrderState) (d : OrderData)
      → Gives (send host c param taken s).0 d
      → IsAnswered param s d (send host c param taken s)
  unfolding send
  send-Gives c param false s d gives = let f = write-Gives c 500 failed s d gives in cc
  send-Gives c param true s d gives =
      let s' : OrderState = record s { queue = s.queue ++ param ∷ [] } in
      received-Gives c (host.receives param s') s' d gives

  submit-Gives :
      (c : Context) (param : CreateOrder) (s : OrderState) (d : OrderData)
      → Gives (submit host c param s).0 d
      → IsAnswered param s d (submit host c param s)
  unfolding submit
  submit-Gives c param s d = send-Gives c param (host.takes param s) s d

  checkout-Gives :
      (c : Context) (param : CreateOrder) (s : OrderState) (d : OrderData)
      → Gives (checkout host c param s).0 d
      → IsAnswered (prepared host s param) s d (checkout host c param s)
  unfolding checkout require
  checkout-Gives c param s d gives =
      let valid : OrderState → Bool =
        λ t. host.is_valid (record param { trace_link = host.trace_link t }) in
      let (accepted, gives') =
        require-Gives c 400 (valid s) (λ _. submit host c (prepared host s param)) s d gives in
      subst (IsAnswered (prepared host s param) s d)
        (sym (bind_next _ _ s tt s (rw (accepted) refl)))
        (submit-Gives c (prepared host s param) s d gives')

  checkout_handler-Gives :
      (q : Request) (s : OrderState) (jwt : Claims) (d : OrderData)
      → q.context.jwt_token ≡ some jwt
      → Gives (checkout_handler host q s).0 d
      → (param : CreateOrder) × (host.decode_order q.body ≡ some param)
        × IsAnswered (prepared host s param) s d (checkout_handler host q s)
  unfolding checkout_handler
  checkout_handler-Gives q s jwt d token gives =
      let (user_id, user, gives1) =
        or_failed-Gives q.context 400 (host.http.parse_uuid jwt.subject) _ s d (
          subst (λ x. Gives x.0 d)
            (bind_next _ _ s (host.http.parse_uuid jwt.subject) s (asks_user q.context s jwt token))
            gives) in
      let (param, decoded, gives2) = or_failed-Gives q.context 400 _ _ s d gives1 in
      (
        param,
        decoded,
        subst (IsAnswered (prepared host s param) s d)
            (sym (checkout_handler-decoded q s jwt user_id param token user decoded))
            (checkout-Gives q.context param s d gives2),
      )

  -- An order that POST /orders/checkout replies with is the one that the worker has sent without an
  -- error on the result channel of the order in the body; that order is then the last in the queue,
  -- and the request had a token that the parser accepts.
  pub checkout_route-IsAnswered :
      (r : Request) (s : OrderState) (d : OrderData)
      → Gives (serve (order_router host (checkout_handler host) "POST" "/orders/checkout") r s).0 d
      → ((token : String) × (jwt : Claims) × (second_part r.authorization ≡ some token)
          × (verify_token host.http token s ≡ some jwt))
        × ((param : CreateOrder) × (host.decode_order r.body ≡ some param)
            × IsAnswered
                (prepared host s param)
                s
                d
                (serve (order_router host (checkout_handler host) "POST" "/orders/checkout") r s))
  unfolding serve order_router
  checkout_route-IsAnswered r s d gives =
      let (token, jwt, found, verified, gives', state) =
        guarded-Gives host.http (checkout_handler host) r s d gives in
      let (param, decoded, (result, received, no_error, order, kept)) =
        checkout_handler-Gives (arriving host.http jwt r s) s jwt d refl gives' in
      (
        (token, jwt, found, verified),
        (param, decoded, (result, received, no_error, order, state ∙ kept)),
      )
