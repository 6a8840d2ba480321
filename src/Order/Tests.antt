-- ===== src/Order/Tests.antt =====
-- The order service at concrete inputs: two orders that want more of one product than there is.
pub mod Witnesses
pub mod Queries
pub mod Ready
pub mod Limits
pub mod Race
use Prim.Native.String.{String}
use mathlib.Core.Option
use mathlib.Core.List.Permᴰ
use hedonify.Prelude.{
  ℕ, ◌+◌, ◌≡◌, ◌≢◌, refl, sym, ap, ◌∙◌, ℤ, pos, Bool, true, false, List, [], ◌∷◌, ◌++◌, Option,
  none, some, arith, All, IsInt32, ◌==◌, if◌then◌else◌, wrap32, add32, sub32, ◌+ℤ◌, ◌-ℤ◌, length,
}
use hedonify.Prelude
use hedonify.Prelude.Map.{Map, lookup}
use hedonify.Repository.Models.{Db, Product, Timestamptz, finite}
use hedonify.Repository.Products.{
  find_products_by_ids, case_value, decrease_row, decrease_rows, decrease_quantities,
}
use hedonify.Repository.Orders.{
  insert_order_row, insert_orders, insert_item_row, insert_order_item, join_items, get_orders,
}
use hedonify.Repository.Mapper.{order_response}
use hedonify.Order.Request.{OrderItem, CreateOrder, OrderResponse, commit_failed, zero_order}
use hedonify.Order.Batch.Items.{requested, of_product}
use hedonify.Order.Batch.Merge.{merge_item, merge_items, merge_id, merge_orders, merge_order_items}
use hedonify.Order.Batch.Merge.Entries.{entry, merge_order_items-lookup}
use hedonify.Order.Batch.Merge.Orders.{
  IsWellFormed, order_count, first_order, merge_order_items-order_count,
  merge_order_items-map_order,
}
use hedonify.Order.Batch.Check.{
  Maps, shorten, drop_order_item, check_loop, check_product, check_decrease_quantity,
}
use hedonify.Order.Batch.Check.Drop.{strip}
use hedonify.Order.Batch.Check.Loop.{of_items}
use hedonify.Order.Batch.Check.Products.{IsStocked, IsBalanced, stock}
use hedonify.Order.Batch.Check.Allotment.{
  IsRegular, AreKeyed, find_product, allotted, checked, check_allots,
}
use hedonify.Order.Batch.Prepare.{
  build_query, prepare_order_args, prepare_order_item_args, add_response, respond_from,
  order_to_response,
}
use hedonify.Order.Batch.Attempt.{Attempt, done, failed, crashed}
use hedonify.Order.Batch.Create.{Host, Faults, take_stock, record_orders, transaction}
use hedonify.Order.Batch.Stock.Sold.{sold}
use hedonify.Order.Batch.Stock.Conservation.{got, transaction-conserves}
use hedonify.Order.Channel.{
  Channels, open_channel, ok, panic, send_on, close_on, deliver, return_order_error, result_for,
}
use hedonify.Order.Channel.Delivery.{AreOpen, AreAnswered, error_result}
use hedonify.Order.Worker.{answer, batch_create_order, Worker, after_batch, tick, here}
use hedonify.Order.Worker.Answers.{tick_commits, tick_fails}
use hedonify.Order.Worker.Crash.{failed_batch_panics}

abbrev pub wants : ℕ → ℕ → ℕ → ℕ → OrderItem
wants id order_id product_id quantity = record {
  created_at = 0;
  updated_at = 0;
  id = id;
  order_id = order_id;
  product_id = product_id;
  price = record { coefficient = pos 5; exponent = pos 0 };
  quantity = pos quantity;
}

abbrev pub order : ℕ → ℕ → List OrderItem → CreateOrder
order id channel items = record {
  order_items = items;
  created_at = 0;
  updated_at = 0;
  id = id;
  user_id = 1;
  result_channel = channel;
  trace_link = 0;
}

abbrev pub first : CreateOrder
first = order 100 1 (wants 1 100 7 3 ∷ wants 2 100 8 1 ∷ [])

abbrev pub second : CreateOrder
second = order 101 2 (wants 3 101 7 4 ∷ [])

abbrev pub batch : List CreateOrder
batch = first ∷ second ∷ []

abbrev pub now : Timestamptz
now = record { time = 0; infinity_modifier = finite; valid = true }

abbrev pub stocked : ℕ → String → ℕ → Product
stocked id name quantity = record {
  id = id;
  name = name;
  price = record {
    int = pos 5;
    exp = pos 0;
    infinity_modifier = finite;
    nan = false;
    valid = true;
  };
  quantity = pos quantity;
  created_at = now;
  updated_at = now;
}

abbrev pub tea : Product
tea = stocked 7 "tea" 5

abbrev pub coffee : Product
coffee = stocked 8 "coffee" 9

abbrev pub tables : Db
tables = record {
  users =
      record {
        id = 1;
        username = "ada";
        email = "ada@mail";
        password = "secret";
        created_at = now;
        updated_at = now;
      }
      ∷ [];
  products = tea ∷ coffee ∷ [];
  carts = [];
  cart_items = [];
  orders = [];
  order_items = [];
}

abbrev pub host : Host
host = record {
  query_range = record { range = λ m. m; range_perm = λ m. Permᴰ.refl m };
  order_range = record { range = λ m. m; range_perm = λ m. Permᴰ.refl m };
  item_range = record { range = λ m. m; range_perm = λ m. Permᴰ.refl m };
  times = record { created = λ id. 0; updated = λ id. 0 };
  now = 0;
  unmarshal = λ items. some [];
}

abbrev pub no_faults : Faults
no_faults = record {
  begin = false;
  find = false;
  update = false;
  orders = false;
  items = false;
  get = false;
  commit = false;
}

abbrev pub commit_fault : Faults
commit_fault = record {
  begin = false;
  find = false;
  update = false;
  orders = false;
  items = false;
  get = false;
  commit = true;
}

abbrev pub channels : Channels
channels = (1, open_channel) ∷ (2, open_channel) ∷ []

abbrev pub worker : Worker
worker = record { waiting = []; batch = batch; db = tables; channels = channels }

pub batch-IsWellFormed : IsWellFormed batch
batch-IsWellFormed = ((refl, (refl, tt)), ((λ e. omega (arith, e)), tt), ((refl, tt), tt, tt))

pub batch-IsRegular : IsRegular batch
batch-IsRegular = record {
  well_formed = batch-IsWellFormed;
  nonneg = (omega arith, (omega arith, (omega arith, tt)));
  small = omega arith;
}

pub tables-AreKeyed : AreKeyed tables.products
tables-AreKeyed = (((λ e. omega (arith, e)), tt), (tt, tt))

pub tables-AreStocked : All IsStocked tables.products
tables-AreStocked = ((omega arith, omega arith), ((omega arith, omega arith), tt))

pub channels-AreOpen : AreOpen batch channels
channels-AreOpen = (refl, ((λ e. omega (arith, e)), tt), (refl, tt, tt))

abbrev pub value : {A : Type 0} → A → Attempt A → A
value a (done b) = b
value a (failed e) = a
value a crashed = a

abbrev pub committed : Map OrderResponse × Db
committed = value ([], tables) (transaction host no_faults batch tables)

pub commits : transaction host no_faults batch tables ≡ done committed
unfolding transaction take_stock record_orders merge_order_items merge_orders merge_items merge_item
    merge_id add32 sub32 wrap32 ◌+ℤ◌ ◌-ℤ◌ check_decrease_quantity check_product check_loop
    drop_order_item shorten find_products_by_ids build_query decrease_quantities decrease_rows
    decrease_row case_value prepare_order_args prepare_order_item_args insert_orders
    insert_order_row insert_order_item insert_item_row get_orders join_items order_to_response
    respond_from add_response order_response Option.bind
commits = refl

pub fails : transaction host commit_fault batch tables ≡ failed commit_failed
unfolding transaction take_stock record_orders merge_order_items merge_orders merge_items merge_item
    merge_id add32 sub32 wrap32 ◌+ℤ◌ ◌-ℤ◌ check_decrease_quantity check_product check_loop
    drop_order_item shorten find_products_by_ids build_query decrease_quantities decrease_rows
    decrease_row case_value prepare_order_args prepare_order_item_args insert_orders
    insert_order_row insert_order_item insert_item_row get_orders join_items order_to_response
    respond_from add_response order_response Option.bind
fails = refl

abbrev pub told : Worker
told = record worker {
  channels =
      (
        1,
        record {
          buffer = record { order = zero_order; err = some commit_failed } ∷ [];
          closed = true;
        },
      )
      ∷ (
        2,
        record {
          buffer = record { order = zero_order; err = some commit_failed } ∷ [];
          closed = true;
        },
      )
      ∷ [];
}

pub ticks_told : tick host commit_fault worker ≡ ok told
unfolding transaction take_stock record_orders merge_order_items merge_orders merge_items merge_item
    merge_id add32 sub32 wrap32 ◌+ℤ◌ ◌-ℤ◌ check_decrease_quantity check_product check_loop
    drop_order_item shorten find_products_by_ids build_query decrease_quantities decrease_rows
    decrease_row case_value prepare_order_args prepare_order_item_args insert_orders
    insert_order_row insert_order_item insert_item_row get_orders join_items order_to_response
    respond_from add_response order_response Option.bind tick batch_create_order answer after_batch
    return_order_error deliver send_on close_on
ticks_told = refl
