-- ===== src/Order/Controller/AnyUser.antt =====
-- Checkout and the user of the token.
use Prim.Native.String.{String}
use hedonify.Prelude.{
  ℕ, ◌≡◌, refl, sym, ap, ◌∙◌, Bool, true, false, [], ◌∷◌, ◌++◌, Option, none, some,
}
use hedonify.User.Service.{Claims}
use hedonify.Order.Request.{CreateOrder, OrderResponse, Error, Result}
use hedonify.Http.Message.{Context, Request, ◌>>=◌, ◌>>◌, write_json_response, require}
use hedonify.Http.Token.{second_part, verify_token}
use hedonify.Http.Given.{arriving}
use hedonify.Http.Middleware.{recovered, serve}
use hedonify.Http.Access.{guarded-admits, identifier, with_request_id}
use hedonify.Order.Controller.{
  OrderState, OrderHttp, reply_to, reply_result, send, submit, prepared, checkout, checkout_handler,
  order_router,
}
use hedonify.Order.Controller.Checkout.{checkout_handler-decoded}

abbrev holding : Context → Claims → Context
holding c jwt = record c { jwt_token = some jwt }

module _ (host : OrderHttp) (c : Context) (jwt jwt' : Claims) where
  -- What replies to an order does not read the token.
  reply_to-token :
      (e : Option Error) (order : OrderResponse) (s : OrderState)
      → reply_to host (holding c jwt) e order s ≡ reply_to host (holding c jwt') e order s
  unfolding reply_to write_json_response
  reply_to-token none order s = refl
  reply_to-token (some e) order s = refl

  reply_result-token :
      (o : Option Result) (s : OrderState)
      → reply_result host (holding c jwt) o s ≡ reply_result host (holding c jwt') o s
  unfolding reply_result write_json_response
  reply_result-token none s = refl
  reply_result-token (some result) s = reply_to-token result.err result.order s

  send-token :
      (param : CreateOrder) (taken : Bool) (s : OrderState)
      → send host (holding c jwt) param taken s ≡ send host (holding c jwt') param taken s
  unfolding send write_json_response
  send-token param false s = refl
  send-token param true s =
      let s' : OrderState = record s { queue = s.queue ++ param ∷ [] } in
      reply_result-token (host.receives param s') s'

  after_require-token :
      (valid : Bool) (param : CreateOrder) (s : OrderState)
      → (require (holding c jwt) 400 valid >> submit host (holding c jwt) param) s
        ≡ (require (holding c jwt') 400 valid >> submit host (holding c jwt') param) s
  unfolding require write_json_response ◌>>=◌ submit send reply_result reply_to
  after_require-token false param s = elim c.request_id [ none ↦ refl | some id ↦ refl ]
  after_require-token true param s = send-token param (host.takes param s) s

  checkout-token :
      (param : CreateOrder) (s : OrderState)
      → checkout host (holding c jwt) param s ≡ checkout host (holding c jwt') param s
  unfolding checkout
  checkout-token param s =
      after_require-token (host.is_valid (record param { trace_link = host.trace_link s }))
        (prepared host s param) s

module _ (host : OrderHttp) where
  -- Two requests to POST /orders/checkout that differ in their tokens only, each of some user, are
  -- handled alike: the order is placed for the user that the body names.
  pub checkout_route-any_user :
      (r : Request) (other : String) (s : OrderState) (token token' : String) (jwt jwt' : Claims)
      (user_id user_id' : ℕ) (param : CreateOrder)
      → second_part r.authorization ≡ some token
      → verify_token host.http token s ≡ some jwt
      → host.http.parse_uuid jwt.subject ≡ some user_id
      → second_part other ≡ some token'
      → verify_token host.http token' s ≡ some jwt'
      → host.http.parse_uuid jwt'.subject ≡ some user_id'
      → host.decode_order r.body ≡ some param
      → let route = order_router host (checkout_handler host) "POST" "/orders/checkout" in
        serve route (record r { authorization = other }) s ≡ serve route r s
  unfolding serve order_router
  checkout_route-any_user r other s token token' jwt jwt' user_id user_id' param found verified user
        found' verified' user' decoded =
      let r' = record r { authorization = other } in
      let q = arriving host.http jwt r s in
      let q' = arriving host.http jwt' r' s in
      guarded-admits host.http (checkout_handler host) r' s token' jwt' found' verified'
      ∙ ap (recovered (with_request_id (identifier host.http r s) r).context) (
          checkout_handler-decoded host q' s jwt' user_id' param refl user' decoded
          ∙ checkout-token host (with_request_id (identifier host.http r s) r).context jwt' jwt
              param s
          ∙ sym (checkout_handler-decoded host q s jwt user_id param refl user decoded))
      ∙ sym (guarded-admits host.http (checkout_handler host) r s token jwt found verified)
