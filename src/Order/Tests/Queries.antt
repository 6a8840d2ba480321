-- ===== src/Order/Tests/Queries.antt =====
-- The queries of the order service: one order with one item.
use hedonify.Prelude.{pos, ◌≡◌, refl, true, false, [], ◌∷◌, some, map, select, ◌==◌}
use hedonify.Repository.Models.{waiting_payment, finite, status_string}
use hedonify.Repository.Orders.{join_items, find_order_by_id, find_order_item_by_id}
use hedonify.Repository.Mapper.{order_response}
use hedonify.Service.World.{World}
use hedonify.Service.Call.{ok, Outside, ◌>>=◌, read, read_all}
use hedonify.Order.Request.{FindOrderById, OrderResponse}
use hedonify.Order.Queries.{item_response, with_items, find_order_by_id_service}
use hedonify.Order.Queries.Owner.{find_order_by_id_service-answers}
use hedonify.Order.Tests.{now, tables}

abbrev pub calm : Outside
calm = record { down = λ n. false; fresh = λ n. n; now = λ n. n }

abbrev pub shop : World
shop = record {
  db = record tables {
    orders =
        record {
          id = 100;
          user_id = 1;
          status = waiting_payment;
          created_at = now;
          updated_at = now;
        }
        ∷ [];
    order_items =
        record {
          id = 5;
          order_id = 100;
          product_id = 7;
          quantity = pos 2;
          price = record {
            int = pos 5;
            exp = pos 0;
            infinity_modifier = finite;
            nan = false;
            valid = true;
          };
          created_at = now;
          updated_at = now;
        }
        ∷ [];
  };
  cache = record {
    products = [];
    users = [];
    logins = [];
    carts = [];
    carts_unformatted = [];
    carts_by_user = [];
  };
  calls = 0;
}

abbrev asked : FindOrderById
asked = record { user_id = 1; order_id = 100 }

abbrev found : OrderResponse
found = record {
  created_at = 0;
  updated_at = 0;
  order_items = [];
  status = "WAITING_PAYMENT";
  id = 100;
  user_id = 1;
}

answers : (find_order_by_id_service calm (λ items. some []) asked shop).0 ≡ ok found
unfolding find_order_by_id_service with_items read read_all ◌>>=◌ find_order_by_id
    find_order_item_by_id join_items order_response status_string
answers = refl

find_order_by_id_service-answers_example :
    (found.user_id ≡ asked.user_id)
    × (found.id ≡ asked.order_id)
    × (found.order_items ≡ map item_response (select (λ i. 100 == i.id) shop.db.order_items))
find_order_by_id_service-answers_example =
    find_order_by_id_service-answers calm (λ items. some []) asked shop found answers
