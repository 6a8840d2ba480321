-- ===== src/Order/Queries.antt =====
-- OrderService.FindOrderById and FindOrders of order/internal/service/order.go.
pub mod Owner
use hedonify.Prelude.{
  ℕ, ◌-◌, ◌%◌, ◌^◌, ℤ, pos, negsuc, List, Option, none, some, map, ltb, if◌then◌else◌,
}
use hedonify.Repository.Models.{Decimal, Order}
use hedonify.Repository.Models
use hedonify.Repository.Orders.{find_order_by_id, find_order_item_by_id, find_order_user_id}
use hedonify.Repository.Mapper.{order_response}
use hedonify.Service.Call.{Outside, M, pure, raise, ◌>>=◌, read, read_all, mapping_failed}
use hedonify.Order.Request.{FindOrderById, FindOrders, ItemResponse, OrderResponse}

-- `Int64()` of a big integer: the low 64 bits.
abbrev signed64 : ℕ → ℤ
signed64 w = if ltb w (2 ^ 63) then pos w else negsuc (2 ^ 64 - w - 1)

unfoldable pub wrap64 : ℤ → ℤ
wrap64 (pos n) = signed64 (n % 2 ^ 64)
wrap64 (negsuc n) = signed64 (2 ^ 64 - 1 - n % 2 ^ 64)

-- The literal of the loop; the times stay zero.
unfoldable pub item_response : Models.OrderItem → ItemResponse
item_response i = record {
  created_at = 0;
  updated_at = 0;
  id = i.id;
  order_id = i.order_id;
  product_id = i.product_id;
  price = record { coefficient = wrap64 i.price.int; exponent = i.price.exp };
  quantity = i.quantity;
}

module _ (out : Outside) where
  -- The rest of FindOrderById: the items are asked for by the order's identifier, and replace those
  -- of the row.
  unfoldable pub with_items : FindOrderById → OrderResponse → M OrderResponse
  with_items param res = do
    repo_order_item ← read_all out (find_order_item_by_id param.order_id)
    pure (record res { order_items = map item_response repo_order_item })

  -- OrderService.FindOrderById
  unfoldable pub find_order_by_id_service :
      (List Models.OrderItem → Option (List ItemResponse)) → FindOrderById → M OrderResponse
  find_order_by_id_service unmarshal param = do
    order ← read out (find_order_by_id param.user_id param.order_id)
    elim (order_response unmarshal order) [
      | none ↦ raise mapping_failed
      | some res ↦ with_items param res
    ]

  -- OrderService.FindOrders
  unfoldable pub find_orders : FindOrders → M (List Order)
  find_orders param = read_all out (find_order_user_id param.user_id)
