-- ===== src/Order/Controller/Tests.antt =====
-- The order routes at concrete requests: one order of two items, which the worker accepts.
use Prim.Native.String.{String}
use mathlib.Core.List.{Memᴰ}
use hedonify.Prelude.{◌≡◌, refl, pos, true, false, [], ◌∷◌, none, some}
use hedonify.Repository.Models.{waiting_payment, finite, status_string}
use hedonify.Repository.Orders.{
  find_order_user_id, find_order_by_id, find_order_item_by_id, join_items,
}
use hedonify.Repository.Mapper.{order_response}
use hedonify.Service.World.{World}
use hedonify.Service.Call.{◌>>=◌, read, read_all}
use hedonify.User.Service.{Claims}
use hedonify.Order.Request.{CreateOrder, OrderResponse, Result, zero_order}
use hedonify.Order.Queries.{find_order_by_id_service, with_items, find_orders}
use hedonify.Order.Tests.{first, now}
use hedonify.Order.Tests.Queries.{calm, shop}
use hedonify.Http.Message.{Request, var?, path_var, write_json_response, or_failed, require}
use hedonify.Http.Message
use hedonify.Http.Token.{split, second_part, verify_token, user_id_from_jwt_token}
use hedonify.Http.Samples.{http, bare, from_ada, ada_claims, bob_claims}
use hedonify.Http.Success.{body?, Gives}
use hedonify.Http.Middleware.{
  logging, recovered, recover_panic, authorize, auth, wrap, serve, Route,
}
use hedonify.Http.Access.{HasNoToken, IsRefusal}
use hedonify.Order.Controller.{
  OrderData, order_of, orders_of, OrderState, OrderHttp, or_failed_query, order_id_of,
  find_order_by_id_handler, find_orders_handler, reply_to, reply_result, send, submit, prepared,
  checkout, checkout_handler, order_router, order_routes,
}
use hedonify.Order.Controller.Checkout.{IsAnswered, order_routes-refuse, checkout_route-IsAnswered}
use hedonify.Order.Controller.AnyUser.{checkout_route-any_user}

abbrev result : Result
result = record { order = record zero_order { id = 100; user_id = 1 }; err = none }

abbrev host : OrderHttp
host = record {
  http = http;
  out = calm;
  unmarshal = λ items. some [];
  decode_order = λ body. some first;
  is_valid = λ p. true;
  trace_link = λ s. 0;
  new_channel = λ s. 3;
  takes = λ p s. true;
  receives = λ p s. some result;
}

-- An order of the user whose identifier is zero, which no user of the shop is.
abbrev nobodys : World
nobodys = record shop {
  db = record shop.db {
    users =
        record {
          id = 0;
          username = "nobody";
          email = "";
          password = "";
          created_at = now;
          updated_at = now;
        }
        ∷ [];
    orders =
        record { id = 7; user_id = 0; status = waiting_payment; created_at = now; updated_at = now }
        ∷ [];
    order_items =
        record {
          id = 5;
          order_id = 7;
          product_id = 7;
          quantity = pos 2;
          price = record {
            int = pos 5;
            exp = pos 0;
            infinity_modifier = finite;
            nan = false;
            valid = true;
          };
          created_at = now;
          updated_at = now;
        }
        ∷ [];
  };
}

abbrev idle : OrderState
idle = record { world = nobodys; queue = [] }

abbrev checkout_route : Route OrderState OrderData
checkout_route = order_router host (checkout_handler host) "POST" "/orders/checkout"

checks_out : Memᴰ checkout_route (order_routes host)
unfolding order_routes
checks_out = Memᴰ.tail (Memᴰ.tail (Memᴰ.head refl))

bare-HasNoToken : HasNoToken host.http bare idle
unfolding second_part split
bare-HasNoToken token found = cc

order_routes-refuse_example :
    ((serve checkout_route bare idle).1 ≡ idle) × IsRefusal (serve checkout_route bare idle).0
order_routes-refuse_example =
    order_routes-refuse host checkout_route bare idle checks_out bare-HasNoToken

checkout_route-Gives : Gives (serve checkout_route from_ada idle).0 (order_of result.order)
unfolding serve wrap order_router logging recover_panic recovered auth authorize second_part split
    verify_token checkout_handler checkout submit send reply_result reply_to prepared require
    or_failed write_json_response user_id_from_jwt_token body? Message.◌>>=◌
checkout_route-Gives = refl

checkout_route-IsAnswered_example :
    ((token : String) × (jwt : Claims) × (second_part from_ada.authorization ≡ some token)
      × (verify_token host.http token idle ≡ some jwt))
    × ((param : CreateOrder) × (host.decode_order from_ada.body ≡ some param)
        × IsAnswered host
            (prepared host idle param)
            idle
            (order_of result.order)
            (serve checkout_route from_ada idle))
checkout_route-IsAnswered_example =
    checkout_route-IsAnswered host from_ada idle (order_of result.order) checkout_route-Gives

checkout_route-any_user_example :
    serve checkout_route (record from_ada { authorization = "Bearer bob" }) idle
    ≡ serve checkout_route from_ada idle
unfolding second_part split verify_token
checkout_route-any_user_example =
    checkout_route-any_user host from_ada "Bearer bob" idle "ada" "bob" ada_claims bob_claims 7 7
      first refl refl refl refl refl refl refl

abbrev find_route : Route OrderState OrderData
find_route = order_router host (find_order_by_id_handler host) "GET" "/orders/{orderId}"

abbrev found : OrderResponse
found = record {
  created_at = 0;
  updated_at = 0;
  order_items = [];
  status = "WAITING_PAYMENT";
  id = 7;
  user_id = 0;
}

find_route-Gives : Gives (serve find_route from_ada idle).0 (order_of found)
unfolding serve wrap order_router logging recover_panic recovered auth authorize second_part split
    verify_token find_order_by_id_handler order_id_of or_failed_query write_json_response path_var
    var? body? Message.◌>>=◌ ◌>>=◌ find_order_by_id_service with_items read read_all
    find_order_by_id find_order_item_by_id order_response join_items status_string
find_route-Gives = refl

abbrev list_route : Route OrderState OrderData
list_route = order_router host (find_orders_handler host) "GET" "/orders"

list_route-Gives : Gives (serve list_route from_ada idle).0 (orders_of [])
unfolding serve wrap order_router logging recover_panic recovered auth authorize second_part split
    verify_token find_orders_handler or_failed or_failed_query write_json_response body?
    Message.◌>>=◌ find_orders read_all find_order_user_id
list_route-Gives = refl
