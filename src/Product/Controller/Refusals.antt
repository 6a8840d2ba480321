-- ===== src/Product/Controller/Refusals.antt =====
-- Which of the product routes can be used at all.
use mathlib.Core.List.{Memᴰ}
use mathlib.Core.List.Memᴰ
use hedonify.Prelude.{◌≡◌, refl, ap, ◌⊎◌, ◌∙◌, ◌≢◌, inl, inr, true, [], ◌∷◌, none, some}
use hedonify.Service.World.{World}
use hedonify.Product.Request.{ProductRequest}
use hedonify.Product.Service.{insert_product_service}
use hedonify.Http.Message.{Request, success, next, panicked, ◌>>=◌, or_failed, require}
use hedonify.Http.Runs.{bind_next, or_failed_call-unwritten}
use hedonify.Http.Middleware.{logging, recover_panic, auth, Route, wrap, serve}
use hedonify.Http.Access.{HasNoToken, IsRefusal, routed-refuses}
use hedonify.Product.Controller.{
  ProductData, product_of, ProductHost, body_of, insert_product_handler, product_router, post_route,
  product_routes,
}

-- Every route but that of POST is within Logging, RecoverPanic and Auth.
guarded_or_post :
    (host : ProductHost) (route : Route World ProductData)
    → Memᴰ route (product_routes host)
    → (route.middlewares ≡ logging host.http ∷ recover_panic ∷ auth host.http ∷ [])
      ⊎ (route.method ≡ "POST")
unfolding product_routes product_router post_route
guarded_or_post host route (Memᴰ.head e) = inl (ap (λ x. x.middlewares) e)
guarded_or_post host route (Memᴰ.tail (Memᴰ.head e)) = inl (ap (λ x. x.middlewares) e)
guarded_or_post host route (Memᴰ.tail (Memᴰ.tail (Memᴰ.head e))) = inl (ap (λ x. x.middlewares) e)
guarded_or_post host route (Memᴰ.tail (Memᴰ.tail (Memᴰ.tail (Memᴰ.head e)))) =
    inl (ap (λ x. x.middlewares) e)
guarded_or_post host route (Memᴰ.tail (Memᴰ.tail (Memᴰ.tail (Memᴰ.tail (Memᴰ.head e))))) =
    inr (ap (λ x. x.method) e)
guarded_or_post host route (Memᴰ.tail (Memᴰ.tail (Memᴰ.tail (Memᴰ.tail (Memᴰ.tail m))))) =
    absurd (Memᴰ.not-nil m)

body_of-valid :
    (host : ProductHost) (r : Request) (w : World) (req_body : ProductRequest)
    → host.decode_body r.body ≡ some req_body
    → host.is_valid req_body ≡ true
    → body_of host r w ≡ (next req_body, w)
unfolding body_of or_failed require ◌>>=◌
body_of-valid host r w req_body decoded valid = rw (body_of, decoded, valid) refl

module _ (host : ProductHost) (r : Request) (w : World) where
  -- Without a token that the parser accepts, a product route of another method than POST leaves the
  -- tables and the cache as they are, and replies 401 or 500.
  pub product_routes-refuse :
      (route : Route World ProductData)
      → Memᴰ route (product_routes host)
      → route.method ≢ "POST"
      → HasNoToken host.http r w
      → ((serve route r w).1 ≡ w) × IsRefusal (serve route r w).0
  product_routes-refuse route member other none_valid = elim (guarded_or_post host route member) [
    | inl guards ↦ routed-refuses host.http route guards r w none_valid
    | inr post ↦ absurd (other post)
  ]

  -- POST /products asks for no token, inserts the product of a valid body as InsertProduct does,
  -- and panics instead of a reply, since no middleware has given the request an identifier.
  pub post_route-unanswered :
      (req_body : ProductRequest)
      → host.decode_body r.body ≡ some req_body
      → host.is_valid req_body ≡ true
      → r.context.request_id ≡ none
      → serve (post_route host) r w ≡ (panicked, (insert_product_service host.out req_body w).1)
  unfolding serve post_route wrap insert_product_handler
  post_route-unanswered req_body decoded valid no_id =
      bind_next (body_of host r) _ w req_body w (body_of-valid host r w req_body decoded valid)
      ∙ or_failed_call-unwritten r.context 400 200 (insert_product_service host.out req_body)
          (λ product. success (product_of product)) w no_id
