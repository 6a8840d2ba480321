-- ===== src/Order/Tests/Race.antt =====
-- Two order services that sell the same tea: five packets are there, three and four are sold.
use mathlib.Core.Option
use hedonify.Prelude.{
  ◌+◌, ◌≡◌, refl, pos, ◌-ℤ◌, ◌+ℤ◌, List, [], ◌∷◌, some, arith, add32, sub32, wrap32,
}
use hedonify.Prelude.Map.{Map}
use hedonify.Repository.Models.{Db, Product}
use hedonify.Repository.Products.{
  find_products_by_ids, case_value, decrease_row, decrease_rows, decrease_quantities,
}
use hedonify.Repository.Orders.{
  insert_orders, insert_order_row, insert_order_item, insert_item_row, get_orders, join_items,
}
use hedonify.Repository.Mapper.{order_response}
use hedonify.Order.Request.{CreateOrder, OrderResponse}
use hedonify.Order.Batch.Merge.{merge_item, merge_items, merge_id, merge_orders, merge_order_items}
use hedonify.Order.Batch.Check.{
  shorten, drop_order_item, check_loop, check_product, check_decrease_quantity,
}
use hedonify.Order.Batch.Check.Allotment.{find_product, IsRegular}
use hedonify.Order.Batch.Prepare.{
  build_query, prepare_order_args, prepare_order_item_args, order_to_response, respond_from,
  add_response,
}
use hedonify.Order.Batch.Attempt.{done}
use hedonify.Order.Batch.Create.{record_orders, take_stock, transaction}
use hedonify.Order.Batch.Late.{late_take_stock, late_transaction}
use hedonify.Order.Batch.Stock.Sold.{sold}
use hedonify.Order.Batch.Stock.Conservation.{got}
use hedonify.Order.Batch.Stock.Race.{late_transaction-oversells}
use hedonify.Order.Tests.{
  wants, order, batch, tea, tables, host, no_faults, value, committed, commits, batch-IsRegular,
  tables-AreKeyed, tables-AreStocked,
}

abbrev others : List CreateOrder
others = order 102 3 (wants 4 102 7 4 ∷ []) ∷ []

others-IsRegular : IsRegular others
others-IsRegular = record {
  well_formed = ((refl, tt), tt, tt);
  nonneg = (omega arith, tt);
  small = omega arith;
}

abbrev both : Map OrderResponse × Db
both = value ([], tables) (late_transaction host no_faults others tables committed.1)

commits_too : late_transaction host no_faults others tables committed.1 ≡ done both
unfolding late_transaction late_take_stock transaction take_stock record_orders merge_order_items
    merge_orders merge_items merge_item merge_id add32 sub32 wrap32 ◌+ℤ◌ ◌-ℤ◌
    check_decrease_quantity check_product check_loop drop_order_item shorten find_products_by_ids
    build_query decrease_quantities decrease_rows decrease_row case_value prepare_order_args
    prepare_order_item_args insert_orders insert_order_row insert_order_item insert_item_row
    get_orders join_items order_to_response respond_from add_response order_response Option.bind
commits_too = refl

late_transaction-oversells_example :
    (tea' : Product) × (find_product 7 both.1.products ≡ some tea')
    × (tea'.quantity ≡ pos 5 -ℤ pos (got tea batch + got tea others))
    × (sold 7 both.1.order_items ≡ sold 7 tables.order_items + (got tea batch + got tea others))
late_transaction-oversells_example =
    late_transaction-oversells host host no_faults no_faults batch others tables committed.1 both.1
      committed.0 both.0 batch-IsRegular others-IsRegular tables-AreKeyed tables-AreStocked commits
      commits_too tea refl
