-- ===== src/Product/Controller/Tests.antt =====
-- The product routes at concrete requests.
use mathlib.Core.List.{Memᴰ}
use hedonify.Prelude.{ℕ, ◌≡◌, refl, ◌≢◌, some, true}
use hedonify.Service.World.{World}
use hedonify.Service.Call.{◌>>=◌, cached}
use hedonify.Product.Request.{ProductResponse, product_response}
use hedonify.Product.Service.{insert_product_service, find_product_by_id_service}
use hedonify.Product.Tests.{flaky, shop, coffee, reads, tea}
use hedonify.Http.Message.{
  Request, success, Handler, var?, path_var, or_failed, or_failed_call, write_json_response,
}
use hedonify.Http.Message
use hedonify.Http.Token.{split, second_part, verify_token}
use hedonify.Http.Samples.{http, bare, from_ada, str_eq-apart}
use hedonify.Http.Success.{body?, Gives}
use hedonify.Http.Middleware.{
  logging, recovered, recover_panic, authorize, auth, wrap, serve, Route,
}
use hedonify.Http.Access.{HasNoToken, IsRefusal}
use hedonify.Product.Coherence.{Shows}
use hedonify.Product.Controller.{
  ProductData, product_of, ProductHost, find_product_by_id_handler, update_product_handler,
  product_router, post_route, product_routes,
}
use hedonify.Product.Controller.Refusals.{product_routes-refuse, post_route-unanswered}
use hedonify.User.Service.{Claims}
use Prim.Native.String.{String}
use hedonify.Product.Controller.Answers.{find_product_by_id_route-answers}

abbrev host : ProductHost
host = record {
  http = http;
  out = flaky;
  decode = reads;
  decode_body = λ body. some coffee;
  is_valid = λ p. true;
}

abbrev update_route : Route World ProductData
update_route = product_router host (update_product_handler host) "PUT" "/products/{productId}"

updates : Memᴰ update_route (product_routes host)
unfolding product_routes
updates = Memᴰ.tail (Memᴰ.tail (Memᴰ.tail (Memᴰ.head refl)))

put-ne-post : update_route.method ≢ "POST"
unfolding product_router
put-ne-post = str_eq-apart "PUT" "POST" refl

put-ne-get : update_route.method ≢ "GET"
unfolding product_router
put-ne-get = str_eq-apart "PUT" "GET" refl

bare-HasNoToken : HasNoToken host.http bare shop
unfolding second_part split
bare-HasNoToken token found = cc

product_routes-refuse_example :
    ((serve update_route bare shop).1 ≡ shop) × IsRefusal (serve update_route bare shop).0
product_routes-refuse_example =
    product_routes-refuse host bare shop update_route updates put-ne-post bare-HasNoToken

post_route-unanswered_example :
    serve (post_route host) bare shop
    ≡ (Message.panicked, (insert_product_service host.out coffee shop).1)
post_route-unanswered_example = post_route-unanswered host bare shop coffee refl refl refl

abbrev find_route : Route World ProductData
find_route = product_router host (find_product_by_id_handler host) "GET" "/products/{productId}"

find_route-Gives : Gives (serve find_route from_ada shop).0 (product_of (product_response tea))
unfolding serve wrap product_router logging recover_panic recovered auth authorize second_part split
    verify_token find_product_by_id_handler or_failed or_failed_call write_json_response path_var
    var? body? find_product_by_id_service cached ◌>>=◌ Message.◌>>=◌
find_route-Gives = refl

find_product_by_id_route-answers_example :
    ((token : String) × (jwt : Claims) × (second_part from_ada.authorization ≡ some token)
      × (verify_token host.http token shop ≡ some jwt))
    × ((id : ℕ) × (answer : ProductResponse) × (host.http.parse_uuid (path_var "productId" from_ada)
          ≡ some id)
        × Shows host.decode id shop answer
        × (product_of (product_response tea) ≡ product_of answer))
find_product_by_id_route-answers_example =
    find_product_by_id_route-answers host from_ada shop (product_of (product_response tea))
      find_route-Gives
