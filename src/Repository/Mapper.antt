-- ===== src/Repository/Mapper.antt =====
-- internal/repository/mapper.go: rows to responses.
use hedonify.Prelude.{List, Option}
use mathlib.Core.Option
use hedonify.Repository.Models.{Decimal, Numeric, OrderItem, status_string}
use hedonify.Repository.Orders.{OrderRow}
use hedonify.Order.Request.{ItemResponse, OrderResponse}

-- `decimal.NewFromBigInt(price.Int, price.Exp)`
unfoldable pub decimal_of : Numeric → Decimal
decimal_of price = record { coefficient = price.int; exponent = price.exp }

-- GetOrdersRow.Response and FindOrderByIdRow.ResponseOrder. `unmarshal` is json.Unmarshal at the
-- column that json_agg made of the items.
unfoldable pub order_response :
    (List OrderItem → Option (List ItemResponse)) → OrderRow → Option OrderResponse
order_response unmarshal o =
    Option.map
      (λ items. record {
        created_at = o.created_at.time;
        updated_at = o.updated_at.time;
        order_items = items;
        status = status_string o.status;
        id = o.id;
        user_id = o.user_id;
      })
      (unmarshal o.order_items)
