-- ===== src/Integrity/Tests.antt =====
-- The services and the worker on the tables of the migrations: a user registers, a product is
-- added, the user keeps a cart of it, and orders it.
use hedonify.Prelude.{ℕ, pos, ◌≡◌, refl, true, false, [], ◌∷◌, add32, sub32, wrap32, ◌+ℤ◌, ◌-ℤ◌}
use mathlib.Core.Option
use hedonify.Repository.Models.{Db, Numeric, Timestamptz, finite, numeric_of, timestamptz_of}
use hedonify.Repository.Integrity.{IsIntegral}
use hedonify.Repository.Products.{
  find_product_by_name, insert_product, find_products_by_ids, case_value, decrease_row,
  decrease_rows, decrease_quantities,
}
use hedonify.Repository.Users.{find_by_email, insert_user}
use hedonify.Repository.Carts.{
  insert_cart, insert_cart_item_row, insert_cart_items, join_cart_items, find_cart_by_id,
}
use hedonify.Repository.Orders.{
  insert_order_row, insert_orders, insert_item_row, insert_order_item, join_items, get_orders,
}
use hedonify.Repository.Mapper.{order_response}
use hedonify.Service.Call.{ask, attempt, read, write, recache, in_transaction, ◌>>=◌}
use hedonify.Order.Batch.Merge.{merge_item, merge_items, merge_id, merge_orders, merge_order_items}
use hedonify.Order.Batch.Check.{
  shorten, drop_order_item, check_loop, check_product, check_decrease_quantity,
}
use hedonify.Order.Batch.Prepare.{
  build_query, prepare_order_args, prepare_order_item_args, add_response, respond_from,
  order_to_response,
}
use hedonify.Order.Batch.Create.{take_stock, record_orders, transaction}
use hedonify.Service.World.{Cache}
use hedonify.Product.Service.{insert_new, insert_product_service}
use hedonify.Product.Tests.{coffee}
use hedonify.User.Service.{register_new, register}
use hedonify.User.Tests.{toy, calm, ada}
use hedonify.Cart.Request.{Cart}
use hedonify.Cart.Service.{
  cart_item_args, cart_response, require_user, commit_cart, insert_cart_body, insert_cart_service,
}
use hedonify.Cart.Merge.{merge_cart_item, merge_cart_items}
use hedonify.Cart.Tests.{host as cart_host}
use hedonify.Order.Request.{CreateOrder}
use hedonify.Order.Channel.{
  ok, panic, blocked, open_channel, send_on, close_on, deliver, result_for, return_order_result,
  Run,
}
use hedonify.Order.Worker.{answer, batch_create_order, Worker, after_batch, tick, ticks}
use hedonify.Order.Tests.{host, no_faults, order, wants}
use hedonify.Integrity.Runs.{
  inserts_product, registers, inserts_cart, operates, works, starts, changes, Runs, Runs-IsIntegral,
}

abbrev no_cache : Cache
no_cache = record {
  products = [];
  users = [];
  logins = [];
  carts = [];
  carts_unformatted = [];
  carts_by_user = [];
}

abbrev no_rows : Db
no_rows = record {
  users = [];
  products = [];
  carts = [];
  cart_items = [];
  orders = [];
  order_items = [];
}

abbrev tick_at : ℕ → Timestamptz
tick_at n = record { time = n; infinity_modifier = finite; valid = true }

abbrev six : Numeric
six = record { int = pos 6; exp = pos 0; infinity_modifier = finite; nan = false; valid = true }

-- The tables after each operation.
abbrev registered : Db
registered = record no_rows {
  users =
      record {
        id = 2;
        username = "ada";
        email = "ada@mail";
        password = "secret";
        created_at = tick_at 2;
        updated_at = tick_at 2;
      }
      ∷ [];
}

abbrev offered : Db
offered = record registered {
  products =
      record {
        id = 7;
        name = "coffee";
        price = six;
        quantity = pos 3;
        created_at = tick_at 7;
        updated_at = tick_at 7;
      }
      ∷ [];
}

abbrev filled : Db
filled = record offered {
  carts = record { id = 2; user_id = 2; created_at = tick_at 2; updated_at = tick_at 2 } ∷ [];
  cart_items =
      record {
        id = 3;
        cart_id = 2;
        product_id = 7;
        quantity = pos 2;
        price = six;
        created_at = tick_at 4;
        updated_at = tick_at 4;
      }
      ∷ [];
}

abbrev wanted : Cart
wanted = record {
  cart_items =
      record {
        product_id = 7;
        price = record { coefficient = pos 6; exponent = pos 0 };
        quantity = pos 2;
      }
      ∷ [];
}

abbrev asked : CreateOrder
asked = record (order 100 1 (wants 1 100 7 2 ∷ [])) { user_id = 2 }

abbrev before : Worker
before = record { waiting = []; batch = asked ∷ []; db = filled; channels = (1, open_channel) ∷ [] }

-- What the worker leaves: the product's stock is one, and the order stands with its item.
abbrev value : Worker → Run Worker → Worker
value w (ok v) = v
value w panic = w
value w blocked = w

abbrev after : Worker
after = value before (tick host no_faults before)

to_registered : Runs registered
unfolding register register_new read write recache ask attempt ◌>>=◌ find_by_email insert_user
    timestamptz_of
to_registered = changes starts (operates no_cache 0 (registers calm toy ada))

to_offered : Runs offered
unfolding insert_product_service insert_new read write recache attempt ◌>>=◌ find_product_by_name
    insert_product wrap32 numeric_of timestamptz_of
to_offered = changes to_registered (operates no_cache 6 (inserts_product calm coffee))

to_filled : Runs filled
unfolding insert_cart_service insert_cart_body require_user commit_cart cart_item_args
    merge_cart_items merge_cart_item cart_response read write recache ask attempt ◌>>=◌
    in_transaction insert_cart insert_cart_items insert_cart_item_row find_cart_by_id
    join_cart_items numeric_of timestamptz_of Option.bind
to_filled = changes to_offered (operates no_cache 0 (inserts_cart cart_host wanted 2))

ticks_after : tick host no_faults before ≡ ok after
unfolding tick batch_create_order answer after_batch transaction take_stock record_orders
    merge_order_items merge_orders merge_items merge_item merge_id add32 sub32 wrap32 ◌+ℤ◌ ◌-ℤ◌
    check_decrease_quantity check_product check_loop drop_order_item shorten find_products_by_ids
    build_query decrease_quantities decrease_rows decrease_row case_value prepare_order_args
    prepare_order_item_args insert_orders insert_order_row insert_order_item insert_item_row
    get_orders join_items order_to_response respond_from add_response order_response Option.bind
    return_order_result result_for deliver send_on close_on
ticks_after = refl

Runs-IsIntegral_example : IsIntegral after.db
Runs-IsIntegral_example =
    Runs-IsIntegral after.db
      (changes to_filled (works before after (ticks host no_faults ticks_after)))
