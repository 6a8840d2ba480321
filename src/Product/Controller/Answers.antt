-- ===== src/Product/Controller/Answers.antt =====
-- The replies of the product routes that name a product.
use Prim.Native.String.{String}
use mathlib.Core.List.{Memᴰ}
use mathlib.Core.List.Memᴰ
use hedonify.Prelude.{ℕ, ◌≡◌, refl, ap, ◌∙◌, subst, sym, ◌≢◌, ◌⊎◌, inl, inr, none, some}
use hedonify.Service.World.{World}
use hedonify.User.Service.{Claims}
use hedonify.Product.Request.{ProductResponse}
use hedonify.Product.Coherence.{Shows, find_product_by_id_service-Shows}
use hedonify.Http.Message.{
  Request, failed, success, written, replied, path_var, write_json_response, or_failed,
}
use hedonify.Http.Token.{second_part, verify_token}
use hedonify.Http.Runs.{bind_replied}
use hedonify.Http.Success.{Gives, write-Gives, or_failed-Gives, or_failed_call-Gives}
use hedonify.Http.Given.{IsFailure, arriving, guarded-Gives, guarded-stops}
use hedonify.Http.Middleware.{Route, serve}
use hedonify.Product.Controller.{
  ProductData, product_of, ProductHost, find_product_by_id_handler, remove_product_handler,
  update_product_handler, product_router, post_route, product_routes,
}

module _ (host : ProductHost) where
  -- Both handlers stop where http.Request.PathValue names no product.
  remove-unnamed :
      (q : Request) (w : World) (id : String)
      → q.context.request_id ≡ some id
      → host.http.parse_uuid (q.path_value "productId") ≡ none
      → remove_product_handler host q w ≡ (replied (written id 400 failed), w)
  unfolding remove_product_handler or_failed write_json_response
  remove-unnamed q w id has unnamed = bind_replied _ _ w _ w (rw (unnamed, has) refl)

  update-unnamed :
      (q : Request) (w : World) (id : String)
      → q.context.request_id ≡ some id
      → host.http.parse_uuid (q.path_value "productId") ≡ none
      → update_product_handler host q w ≡ (replied (written id 400 failed), w)
  unfolding update_product_handler or_failed write_json_response
  update-unnamed q w id has unnamed = bind_replied _ _ w _ w (rw (unnamed, has) refl)

  -- The two routes that name a product by PathValue.
  named_by_path :
      (route : Route World ProductData)
      → Memᴰ route (product_routes host)
      → route.method ≢ "GET"
      → route.method ≢ "POST"
      → (route ≡ product_router host (remove_product_handler host) "DELETE" "/products/{productId}")
        ⊎ (route ≡ product_router host (update_product_handler host) "PUT" "/products/{productId}")
  unfolding product_routes product_router post_route
  named_by_path route (Memᴰ.head e) not_get not_post = absurd (not_get (ap (λ x. x.method) e))
  named_by_path route (Memᴰ.tail (Memᴰ.head e)) not_get not_post =
      absurd (not_get (ap (λ x. x.method) e))
  named_by_path route (Memᴰ.tail (Memᴰ.tail (Memᴰ.head e))) not_get not_post = inl e
  named_by_path route (Memᴰ.tail (Memᴰ.tail (Memᴰ.tail (Memᴰ.head e)))) not_get not_post = inr e
  named_by_path route (Memᴰ.tail (Memᴰ.tail (Memᴰ.tail (Memᴰ.tail (Memᴰ.head e))))) not_get
        not_post =
      absurd (not_post (ap (λ x. x.method) e))
  named_by_path route (Memᴰ.tail (Memᴰ.tail (Memᴰ.tail (Memᴰ.tail (Memᴰ.tail m))))) not_get
        not_post =
      absurd (Memᴰ.not-nil m)

  -- Where http.Request.PathValue is empty, as it is under a router that does not fill it in, and the
  -- empty string is no identifier, the routes of DELETE and PUT change nothing and reply a failure.
  product_routes-unnamed :
      (route : Route World ProductData) (r : Request) (w : World)
      → Memᴰ route (product_routes host)
      → route.method ≢ "GET"
      → route.method ≢ "POST"
      → r.path_value "productId" ≡ ""
      → host.http.parse_uuid "" ≡ none
      → ((serve route r w).1 ≡ w) × IsFailure (serve route r w).0
  unfolding serve product_router
  product_routes-unnamed route r w member not_get not_post unfilled no_id =
      elim (named_by_path route member not_get not_post) [
        | inl removes ↦
            subst (λ x. ((serve x r w).1 ≡ w) × IsFailure (serve x r w).0) (sym removes)
              (guarded-stops host.http (remove_product_handler host) r w
                (λ q id has same. remove-unnamed q w id has (unparsed q same)))
        | inr updates ↦
            subst (λ x. ((serve x r w).1 ≡ w) × IsFailure (serve x r w).0) (sym updates)
              (guarded-stops host.http (update_product_handler host) r w
                (λ q id has same. update-unnamed q w id has (unparsed q same)))
      ]
    where
      unparsed :
          (q : Request)
          → q.path_value ≡ r.path_value
          → host.http.parse_uuid (q.path_value "productId") ≡ none
      unparsed q same =
          ap (λ f. host.http.parse_uuid (f "productId")) same
          ∙ ap host.http.parse_uuid unfilled
          ∙ no_id

  find_product_by_id_handler-Gives :
      (q : Request) (w : World) (d : ProductData)
      → Gives (find_product_by_id_handler host q w).0 d
      → (id : ℕ) × (answer : ProductResponse) × (host.http.parse_uuid (path_var "productId" q)
          ≡ some id)
        × Shows host.decode id w answer
        × (d ≡ product_of answer)
  unfolding find_product_by_id_handler
  find_product_by_id_handler-Gives q w d gives =
      let (id, named, gives') = or_failed-Gives q.context 400 _ _ w d gives in
      let (answer, answered, gives'') = or_failed_call-Gives q.context 400 _ _ w d gives' in
      let replied_with = write-Gives q.context 200 (success (product_of answer)) _ d gives'' in
      (
        id,
        answer,
        named,
        find_product_by_id_service-Shows host.out host.decode id w answer answered,
        cc,
      )

  -- A product that the route of GET /products/{productId} replies with is the response of the row that
  -- the table has under the identifier of the path, or, where a row is cached under it, what that
  -- document decodes to, even if the table has changed since; and the request had a token that the
  -- parser accepts.
  pub find_product_by_id_route-answers :
      (r : Request) (w : World) (d : ProductData)
      → Gives
          (serve
            (product_router host (find_product_by_id_handler host) "GET" "/products/{productId}")
            r
            w).0
          d
      → ((token : String) × (jwt : Claims) × (second_part r.authorization ≡ some token)
          × (verify_token host.http token w ≡ some jwt))
        × ((id : ℕ) × (answer : ProductResponse) × (host.http.parse_uuid (path_var "productId" r)
              ≡ some id)
            × Shows host.decode id w answer
            × (d ≡ product_of answer))
  unfolding serve product_router path_var
  find_product_by_id_route-answers r w d gives =
      let (token, jwt, found, verified, gives', _) =
        guarded-Gives host.http (find_product_by_id_handler host) r w d gives in
      (
        (token, jwt, found, verified),
        find_product_by_id_handler-Gives (arriving host.http jwt r w) w d gives',
      )
