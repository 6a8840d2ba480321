-- ===== src/Cart/Controller/Access.antt =====
-- Who can use the cart routes.
use Prim.Native.String.{String}
use mathlib.Core.List.{Memᴰ}
use mathlib.Core.List.Memᴰ
use hedonify.Prelude.{ℕ, ◌≡◌, refl, ap, ◌∙◌, [], ◌∷◌, none, some, false}
use hedonify.Prelude.Map.{lookup}
use hedonify.Service.World.{World, CartDocument}
use hedonify.Service.Call.{counted}
use hedonify.User.Service.{Claims}
use hedonify.Http.Message.{
  Context, Request, success, written, next, replied, path_var, write_json_response, or_failed,
}
use hedonify.Http.Token.{second_part, verify_token, user_id_from_jwt_token}
use hedonify.Http.Runs.{bind_next, bind_replied, or_failed-some, write-has, or_failed_call-ok}
use hedonify.Http.Given.{IsFailure, arriving, guarded-stops}
use hedonify.Http.Middleware.{logging, recovered, recover_panic, auth, Route, serve}
use hedonify.Http.Access.{
  HasNoToken, IsRefusal, guarded-admits, routed-refuses, identifier, with_request_id,
}
use hedonify.Cart.Cached.{find_cart_by_id_service-cached}
use hedonify.Cart.Request.{CartResponse}
use hedonify.Cart.Controller.{
  CartHttp, user_of, find_cart_by_id_handler, remove_cart_item_handler, cart_router, cart_routes,
}

module _ (host : CartHttp) where
  cart_routes-guarded :
      (route : Route World CartResponse)
      → Memᴰ route (cart_routes host)
      → route.middlewares ≡ logging host.http ∷ recover_panic ∷ auth host.http ∷ []
  unfolding cart_routes cart_router
  cart_routes-guarded route (Memᴰ.head e) = ap (λ x. x.middlewares) e
  cart_routes-guarded route (Memᴰ.tail (Memᴰ.head e)) = ap (λ x. x.middlewares) e
  cart_routes-guarded route (Memᴰ.tail (Memᴰ.tail (Memᴰ.head e))) = ap (λ x. x.middlewares) e
  cart_routes-guarded route (Memᴰ.tail (Memᴰ.tail (Memᴰ.tail (Memᴰ.head e)))) =
      ap (λ x. x.middlewares) e
  cart_routes-guarded route (Memᴰ.tail (Memᴰ.tail (Memᴰ.tail (Memᴰ.tail m)))) =
      absurd (Memᴰ.not-nil m)

  -- Without a token that the parser accepts, every cart route leaves the tables and the cache as they
  -- are, and replies 401 or 500.
  pub cart_routes-refuse :
      (route : Route World CartResponse) (r : Request) (w : World)
      → Memᴰ route (cart_routes host)
      → HasNoToken host.http r w
      → ((serve route r w).1 ≡ w) × IsRefusal (serve route r w).0
  cart_routes-refuse route r w member none_valid =
      routed-refuses host.http route (cart_routes-guarded route member) r w none_valid

  -- Where http.Request.PathValue is empty, as it is under a router that does not fill it in, and the
  -- empty string is no identifier, DELETE /carts/{cartId}/{cartItemId} changes nothing and replies a
  -- failure.
  remove_cart_item_route-unnamed :
      (r : Request) (w : World)
      → r.path_value "cartId" ≡ ""
      → host.http.parse_uuid "" ≡ none
      → let route =
          cart_router host
            (remove_cart_item_handler host)
            "DELETE"
            "/carts/{cartId}/{cartItemId}" in
        ((serve route r w).1 ≡ w) × IsFailure (serve route r w).0
  unfolding serve cart_router remove_cart_item_handler or_failed write_json_response
  remove_cart_item_route-unnamed r w unfilled no_id =
      guarded-stops host.http (remove_cart_item_handler host) r w (λ q id has same.
        let unparsed =
          ap (λ f. host.http.parse_uuid (f "cartId")) same
          ∙ ap host.http.parse_uuid unfilled
          ∙ no_id in
        bind_replied _ _ w _ w (rw (unparsed, has) refl))

  user_of-some :
      (c : Context) (w : World) (jwt : Claims) (user_id : ℕ)
      → c.jwt_token ≡ some jwt
      → host.http.parse_uuid jwt.subject ≡ some user_id
      → user_of host c w ≡ (next user_id, w)
  unfolding user_of user_id_from_jwt_token
  user_of-some c w jwt user_id token user =
      bind_next _ _ w (some user_id) w (rw (token, user) refl)
      ∙ or_failed-some c 400 (some user_id) w user_id refl

  -- The handler of GET /carts/{cartId} at a cached cart.
  find_cart_by_id_handler-cached :
      (q : Request) (w : World) (jwt : Claims) (id : String) (cart_id user_id : ℕ)
      (document : CartDocument) (cart : CartResponse)
      → q.context.request_id ≡ some id
      → q.context.jwt_token ≡ some jwt
      → host.http.parse_uuid (path_var "cartId" q) ≡ some cart_id
      → host.http.parse_uuid jwt.subject ≡ some user_id
      → host.service.out.down w.calls ≡ false
      → lookup cart_id w.cache.carts ≡ some document
      → host.service.decode document ≡ some cart
      → find_cart_by_id_handler host q w ≡ (replied (written id 200 (success cart)), counted w)
  unfolding find_cart_by_id_handler
  find_cart_by_id_handler-cached q w jwt id cart_id user_id document cart has token named user up
        found decoded =
      bind_next _ _ w cart_id w (or_failed-some q.context 400 _ w cart_id named)
      ∙ bind_next (user_of host q.context) _ w user_id w
          (user_of-some q.context w jwt user_id token user)
      ∙ bind_next _ _ w cart (counted w) (
          or_failed_call-ok q.context 400 _ w (counted w) cart (
            find_cart_by_id_service-cached host.service w cart_id user_id document cart up found
              decoded))
      ∙ write-has q.context 200 (success cart) (counted w) id has

  -- A cart that is cached is given by GET /carts/{cartId} to whoever has a token, whichever user its
  -- subject names.
  pub find_cart_by_id_route-cached :
      (r : Request) (w : World) (token : String) (jwt : Claims) (cart_id user_id : ℕ)
      (document : CartDocument) (cart : CartResponse)
      → second_part r.authorization ≡ some token
      → verify_token host.http token w ≡ some jwt
      → host.http.parse_uuid (path_var "cartId" r) ≡ some cart_id
      → host.http.parse_uuid jwt.subject ≡ some user_id
      → host.service.out.down w.calls ≡ false
      → lookup cart_id w.cache.carts ≡ some document
      → host.service.decode document ≡ some cart
      → serve (cart_router host (find_cart_by_id_handler host) "GET" "/carts/{cartId}") r w
        ≡ (replied (written (identifier host.http r w) 200 (success cart)), counted w)
  unfolding serve cart_router recovered path_var
  find_cart_by_id_route-cached r w token jwt cart_id user_id document cart sent verified named user
        up found decoded =
      let q = arriving host.http jwt r w in
      guarded-admits host.http (find_cart_by_id_handler host) r w token jwt sent verified
      ∙ ap (recovered (with_request_id (identifier host.http r w) r).context) (
          find_cart_by_id_handler-cached q w jwt (identifier host.http r w) cart_id user_id document
            cart refl refl named user up found decoded)
