-- ===== src/Cart/Controller/Tests.antt =====
-- The cart routes at concrete requests.
use mathlib.Core.Option
use mathlib.Core.List.{Memᴰ}
use hedonify.Prelude.{pos, ◌≡◌, refl, true, false, [], ◌∷◌, none, some}
use hedonify.Service.World.{World, CartDocument, of_response, of_row}
use hedonify.Service.Call.{ok, counted, read, write, recache, ask, attempt, in_transaction, ◌>>=◌}
use hedonify.Cart.Request.{Cart, CartResponse}
use hedonify.Cart.Tests.{shop}
use hedonify.Cart.Tests
use hedonify.Http.Message.{Request, success, written, replied, var?, path_var}
use hedonify.Http.Token.{split, second_part, verify_token}
use hedonify.Http.Samples.{http, bare, from_ada, bob_claims}
use hedonify.Http.Middleware.{Route, serve}
use hedonify.Http.Access.{HasNoToken, IsRefusal, identifier}
use hedonify.Repository.Models.{numeric_of, timestamptz_of}
use hedonify.Repository.Carts.{
  insert_cart, insert_cart_items, insert_cart_item_row, find_cart_by_id, join_cart_items,
}
use hedonify.Cart.Merge.{merge_cart_items, merge_cart_item}
use hedonify.Cart.Service.{
  cart_response, cart_item_args, require_user, commit_cart, insert_cart_body, insert_cart_service,
  find_cart_by_id_service,
}
use hedonify.Cart.Inserted.{find_cart_by_id_service-insert_cart_service}
use hedonify.Order.Tests.{coffee}
use hedonify.Cart.Controller.{CartHttp, find_cart_by_id_handler, cart_router, cart_routes}
use hedonify.Cart.Controller.Access.{cart_routes-refuse, find_cart_by_id_route-cached}

abbrev adas_cart : CartResponse
adas_cart = record { id = 7; user_id = 1; cart_items = []; created_at = 0; updated_at = 0 }

abbrev reading : CartDocument → CartResponse
reading (of_response c) = c
reading (of_row c) = adas_cart

abbrev host : CartHttp
host = record {
  http = http;
  service = record Tests.host { decode = λ d. some (reading d) };
  decode_cart = λ body. none;
  is_valid = λ c. true;
}

abbrev with_cart : World
with_cart = record shop { cache = record shop.cache { carts = (7, of_response adas_cart) ∷ [] } }

abbrev from_bob : Request
from_bob = record from_ada { authorization = "Bearer bob" }

abbrev find_route : Route World CartResponse
find_route = cart_router host (find_cart_by_id_handler host) "GET" "/carts/{cartId}"

finds : Memᴰ find_route (cart_routes host)
unfolding cart_routes
finds = Memᴰ.tail (Memᴰ.tail (Memᴰ.head refl))

bare-HasNoToken : HasNoToken host.http bare with_cart
unfolding second_part split
bare-HasNoToken token found = cc

cart_routes-refuse_example :
    ((serve find_route bare with_cart).1 ≡ with_cart)
    × IsRefusal (serve find_route bare with_cart).0
cart_routes-refuse_example = cart_routes-refuse host find_route bare with_cart finds bare-HasNoToken

find_cart_by_id_route-cached_example : serve find_route from_bob with_cart ≡ (
  replied (written (identifier host.http from_bob with_cart) 200 (success adas_cart)),
  counted with_cart,
)
unfolding second_part split verify_token path_var var?
find_cart_by_id_route-cached_example =
    find_cart_by_id_route-cached host from_bob with_cart "bob" bob_claims 7 7
      (of_response adas_cart) adas_cart refl refl refl refl refl refl refl

abbrev market : World
market = record shop { db = record shop.db { products = coffee ∷ [] } }

abbrev coffees : Cart
coffees = record {
  cart_items =
      record {
        product_id = 8;
        price = record { coefficient = pos 5; exponent = pos 0 };
        quantity = pos 2;
      }
      ∷ [];
}

abbrev made : CartResponse
made = record { id = 2; user_id = 1; cart_items = []; created_at = 2; updated_at = 2 }

inserts : (insert_cart_service host.service coffees 1 market).0 ≡ ok made
unfolding insert_cart_service insert_cart_body cart_item_args require_user commit_cart
    merge_cart_items merge_cart_item insert_cart insert_cart_items insert_cart_item_row
    find_cart_by_id join_cart_items cart_response read write recache ask attempt in_transaction
    ◌>>=◌ numeric_of timestamptz_of Option.bind
inserts = refl

calls_up : host.service.out.down (insert_cart_service host.service coffees 1 market).1.calls ≡ false
calls_up = refl

find_cart_by_id_service-insert_cart_service_example :
    (find_cart_by_id_service host.service
      (record { id = made.id; user_id = 9 })
      (insert_cart_service host.service coffees 1 market).1).0
    ≡ ok made
find_cart_by_id_service-insert_cart_service_example =
    find_cart_by_id_service-insert_cart_service host.service coffees 1 9 market made inserts refl
      calls_up
