-- ===== src/Order/Batch/Create.antt =====
-- The transaction of BatchCreateOrder, order/internal/service/order.go. What fails outside the
-- program is told by `Faults`, and what the program takes from outside it stands in `Host`.
use hedonify.Prelude.{ℕ, Bool, List, Option}
use hedonify.Prelude.Map.{Map, RangeOrder}
use hedonify.Repository.Models.{Db}
use hedonify.Repository.Models
use hedonify.Repository.Products.{find_products_by_ids, decrease_quantities}
use hedonify.Repository.Orders.{insert_orders, insert_order_item, get_orders}
use hedonify.Order.Request.{
  CreateOrder, ItemResponse, OrderResponse, begin_failed, find_failed, update_failed, orders_failed,
  items_failed, get_failed, commit_failed,
}
use hedonify.Order.Batch.Merge.{MergedOrderItem, Merge, merge_order_items}
use hedonify.Order.Batch.Check.{Maps, check_decrease_quantity}
use hedonify.Order.Batch.Prepare.{
  Times, build_query, prepare_order_args, prepare_order_item_args, order_to_response,
}
use hedonify.Order.Batch.Attempt.{Attempt, done, ◌>>=◌, ◌>>◌, unless, statement, no_error}

-- What a batch takes from outside: the order of the three ranges, the clocks, and json.Unmarshal at
-- the items of a row.
pub record Host : Type 0 where
  pub query_range : RangeOrder MergedOrderItem
  pub order_range : RangeOrder CreateOrder
  pub item_range : RangeOrder MergedOrderItem
  pub times : Times
  pub now : ℕ
  pub unmarshal : List Models.OrderItem → Option (List ItemResponse)

-- The calls of the database that fail.
pub record Faults : Type 0 where
  pub begin : Bool
  pub find : Bool
  pub update : Bool
  pub orders : Bool
  pub items : Bool
  pub get : Bool
  pub commit : Bool

-- Reading and taking the stock.
unfoldable pub take_stock : Host → Faults → Merge → Db → Attempt (Maps × Db)
take_stock host faults m db = do
  unless faults.find find_failed
  maps ← no_error (
      check_decrease_quantity (find_products_by_ids m.product_ids db)
        (record { map_merged_order_item = m.map_merged_order_item; map_order = m.map_order }))
  db' ← statement faults.update update_failed (
      decrease_quantities (build_query (host.query_range.range maps.map_merged_order_item))
        m.product_ids host.now db)
  done (maps, db')

-- Recording the orders and reading them back.
unfoldable pub record_orders : Host → Faults → Merge → Maps → Db → Attempt (Map OrderResponse × Db)
record_orders host faults m maps db = do
  db' ←
      statement faults.orders orders_failed
        (insert_orders (prepare_order_args host.times (host.order_range.range maps.map_order)) db)
  db'' ← statement faults.items items_failed (
      insert_order_item
        (prepare_order_item_args host.times (host.item_range.range maps.map_merged_order_item)) db')
  unless faults.get get_failed
  done (order_to_response host.unmarshal (get_orders m.order_ids db'') maps.map_order, db'')

-- The whole transaction: the tables change only if it commits.
unfoldable pub transaction :
    Host → Faults → List CreateOrder → Db → Attempt (Map OrderResponse × Db)
transaction host faults params db = do
  let m = merge_order_items params
  unless faults.begin begin_failed
  (maps, db') ← take_stock host faults m db
  (responses, db'') ← record_orders host faults m maps db'
  unless faults.commit commit_failed
  done (responses, db'')
