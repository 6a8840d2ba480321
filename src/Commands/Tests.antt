-- ===== src/Commands/Tests.antt =====
-- The services at a concrete configuration, on a database with a user.
use Prim.Native.String.{String}
use text.Mathlib.TextEquality.{eq_iff}
use mathlib.Core.List.{Memᴰ}
use mathlib.Core.List.Permᴰ
use hedonify.Prelude.{
  ℕ, ◌-◌, pos, ◌≡◌, refl, true, false, Option, some, none, [], ◌∷◌, arith, zero, suc,
}
use hedonify.Repository.Models.{finite}
use hedonify.Infra.Schema.{
  Schema, script_up, script_down, users_up, users_down, products_up, products_down, carts_up,
  carts_down, orders_up, orders_down, create_table,
}
use hedonify.Infra.Run.{Migrated, System, acquires, database, cache, returned, server, queue}
use hedonify.Infra.Config.{Config, get}
use hedonify.Infra.Database.{MigrateError, nil, no_change, failed, new_database_client}
use hedonify.Infra.Emptied.{
  down_from, up_from, MigrateLaws, IsMigrated, all_empty, new_database_client-empties,
}
use hedonify.Commands.Services.{CommandHost, commands, run_user_service, run_order_service}
use hedonify.Commands.Connected.{Starts}
use hedonify.Commands.Nested.{Hangs}
use hedonify.Commands.Closed.{commands-Hang}
use hedonify.Commands.Unclosed.{Outlives, run_user_service-Outlives, run_order_service-Outlives}

abbrev applied : ℕ → Migrated → Option Schema → MigrateError × Migrated
applied v m none = (failed, m)
applied v m (some s) = (nil, record { version = v; schema = s })

abbrev down : Migrated → MigrateError × Migrated
down m = elim m.version [ zero ↦ (no_change, m) | suc v ↦ applied 0 m (down_from (suc v) m.schema) ]

abbrev up : Migrated → MigrateError × Migrated
up m = elim (4 - m.version) [
  | zero ↦ (no_change, m)
  | suc n ↦ applied 4 m (up_from (suc n) m.version m.schema)
]

abbrev config : Config
config = record {
  database = record {
    name = "postgres";
    host = "postgres";
    migration_path = "file://migrations/";
    password = "postgres";
    time_zone = "Asia/Jakarta";
    username = "postgres";
    max_connections = pos 10;
    min_connections = pos 5;
    port = 5432;
  };
  cache = record { host = "redis"; password = ""; database = pos 0; port = 6379 };
  application = record {
    env = "development";
    host = "0.0.0.0";
    secret_key = "secret";
    port = pos 80;
  };
  otel = record { host = "otel-collector"; port = pos 4317 };
}

abbrev host : CommandHost
host = record {
  config = record { read_in_config = λ file. some file; unmarshal = λ settings. some config };
  telemetry = record {
    resource = true;
    tracer = true;
    meter = true;
    fails = λ provider. false;
    order = λ providers. providers;
    order_perm = λ providers. Permᴰ.refl providers;
  };
  database = record {
    digits = λ n. "5432";
    parse_config = λ url. true;
    new_with_config = λ url. some 7;
    ping = λ id. true;
    with_instance = λ id. true;
    new_with_database_instance = λ path url. true;
    down = down;
    up = up;
  };
  cache = record { instrument_tracing = true; instrument_metrics = true; ping = λ config. true };
  listens = true;
  drains = true;
}

abbrev used : Migrated
used = record {
  version = 4;
  schema = record {
    users = some (
        record {
          id = 1;
          username = "ada";
          email = "ada@mail";
          password = "secret";
          created_at = record { time = 0; infinity_modifier = finite; valid = true };
          updated_at = record { time = 0; infinity_modifier = finite; valid = true };
        }
        ∷ []);
    products = some [];
    carts = some [];
    cart_items = some [];
    order_status = true;
    orders = some [];
    order_items = some [];
  };
}

used-IsMigrated : IsMigrated used
used-IsMigrated = record {
  known = omega arith;
  no_users = λ h. absurd (omega (arith, h));
  no_products = λ h. absurd (omega (arith, h));
  no_carts = λ h. absurd (omega (arith, h));
  no_cart_items = λ h. absurd (omega (arith, h));
  no_order_status = λ h. absurd (omega (arith, h));
  no_orders = λ h. absurd (omega (arith, h));
  no_order_items = λ h. absurd (omega (arith, h));
}

laws : MigrateLaws host.database
laws = record {
  down_nil = λ m m' e. ground arith;
  down_no_change = λ m m' e. ground arith;
  up_nil = λ m m' e. ground arith;
  up_no_change = λ m m' le e. ground arith;
}

opens :
    new_database_client host.database config.database
      (record { pool = none; in_use = 0; migrated = used })
    ≡ returned
        (acquires database ∷ [])
        (some 7)
        (record { pool = some 7; in_use = 1; migrated = all_empty })
unfolding down_from script_down orders_down carts_down products_down users_down up_from script_up
    users_up products_up carts_up orders_up create_table
opens =
    new_database_client-empties host.database config.database 7 used laws used-IsMigrated
      (record { parses = refl; makes = refl; pings = refl; instances = refl; migrates = refl })
      (λ e. cc) (λ e. cc)

new_database_client-empties_example :
    new_database_client host.database config.database
      (record { pool = none; in_use = 0; migrated = used })
    ≡ returned
        (acquires database ∷ [])
        (some 7)
        (record { pool = some 7; in_use = 1; migrated = all_empty })
unfolding down_from script_down orders_down carts_down products_down users_down up_from script_up
    users_up products_up carts_up orders_up create_table
new_database_client-empties_example =
    new_database_client-empties host.database config.database 7 used laws used-IsMigrated
      (record { parses = refl; makes = refl; pings = refl; instances = refl; migrates = refl })
      (λ e. cc) (λ e. cc)

abbrev start : System
start = record { pool = none; in_use = 0; migrated = used }

abbrev started : System
started = record { pool = some 7; in_use = 1; migrated = all_empty }

config_read : (name : String) → get host.config name start ≡ returned [] config start
unfolding get
config_read name = refl

starts : (name : String) → Starts host name config start started
starts name = record {
  pool = some 7;
  reads = config_read name;
  resource = refl;
  tracer = refl;
  meter = refl;
  opens = opens;
  tracing = refl;
  metrics = refl;
  pings = refl;
}

is_order : Memᴰ ("order", run_order_service host) (commands host)
unfolding commands
is_order = Memᴰ.tail (Memᴰ.tail (Memᴰ.head refl))

commands-Hang_example : Hangs (run_order_service host) start started
commands-Hang_example =
    commands-Hang host config start started refl "order" (run_order_service host) is_order
      (λ e. ground (arith, eq_iff "order" "notification", e)) (starts "order-service")

run_user_service-Outlives_example : Outlives server cache (run_user_service host) start started
run_user_service-Outlives_example =
    run_user_service-Outlives host config start started (starts "user-service") refl

abbrev busy : CommandHost
busy = record host { drains = false }

run_order_service-Outlives_example : Outlives server queue (run_order_service busy) start started
run_order_service-Outlives_example =
    run_order_service-Outlives busy config start started
      (record {
        pool = some 7;
        reads = config_read "order-service";
        resource = refl;
        tracer = refl;
        meter = refl;
        opens = opens;
        tracing = refl;
        metrics = refl;
        pings = refl;
      })
      refl refl

abbrev unmetered : CommandHost
unmetered = record host { telemetry = record host.telemetry { meter = false } }

is_user : Memᴰ ("user", run_user_service unmetered) (commands unmetered)
unfolding commands
is_user = Memᴰ.tail (Memᴰ.tail (Memᴰ.tail (Memᴰ.tail (Memᴰ.head refl))))
