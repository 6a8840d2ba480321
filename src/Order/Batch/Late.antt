-- ===== src/Order/Batch/Late.antt =====
-- The transaction of BatchCreateOrder while another commits, under the isolation level that
-- pgx.TxOptions{} asks for, read committed: the select of the products, which takes no lock, sees
-- the tables as they were before, and the statements after it see them as they are then.
use hedonify.Prelude.{List, ◌≡◌, refl}
use hedonify.Prelude.Map.{Map}
use hedonify.Repository.Models.{Db}
use hedonify.Repository.Products.{find_products_by_ids, decrease_quantities}
use hedonify.Order.Request.{
  CreateOrder, OrderResponse, begin_failed, find_failed, update_failed, commit_failed,
}
use hedonify.Order.Batch.Merge.{Merge, merge_order_items}
use hedonify.Order.Batch.Check.{Maps, check_decrease_quantity}
use hedonify.Order.Batch.Prepare.{build_query}
use hedonify.Order.Batch.Attempt.{Attempt, done, ◌>>=◌, ◌>>◌, unless, statement, no_error}
use hedonify.Order.Batch.Create.{Host, Faults, take_stock, record_orders, transaction}

unfoldable pub late_take_stock : Host → Faults → Merge → Db → Db → Attempt (Maps × Db)
late_take_stock host faults m seen db = do
  unless faults.find find_failed
  maps ← no_error (
      check_decrease_quantity (find_products_by_ids m.product_ids seen)
        (record { map_merged_order_item = m.map_merged_order_item; map_order = m.map_order }))
  db' ← statement faults.update update_failed (
      decrease_quantities (build_query (host.query_range.range maps.map_merged_order_item))
        m.product_ids host.now db)
  done (maps, db')

unfoldable pub late_transaction :
    Host → Faults → List CreateOrder → Db → Db → Attempt (Map OrderResponse × Db)
late_transaction host faults params seen db = do
  let m = merge_order_items params
  unless faults.begin begin_failed
  (maps, db') ← late_take_stock host faults m seen db
  (responses, db'') ← record_orders host faults m maps db'
  unless faults.commit commit_failed
  done (responses, db'')

-- With nothing in between it is the transaction.
pub late_transaction_alone :
    (host : Host) (faults : Faults) (params : List CreateOrder) (db : Db)
    → late_transaction host faults params db db ≡ transaction host faults params db
unfolding late_transaction late_take_stock transaction take_stock
late_transaction_alone host faults params db = refl
