-- ===== src/Infra/Emptied.antt =====
-- What NewDatabaseClient leaves of the tables.
use hedonify.Prelude.{
  ℕ, zero, suc, ◌-◌, ◌≤◌, ◌<◌, ◌≡◌, ◌≢◌, refl, ap, subst, true, false, Option, none, some, [], ◌∷◌,
  arith,
}
use hedonify.Infra.Schema.{
  Schema, script_up, script_down, users_up, users_down, products_up, products_down, carts_up,
  carts_down, orders_up, orders_down, create_table,
}
use hedonify.Infra.Run.{System, Migrated, returned, acquires, database, ◌>>=◌, must}
use hedonify.Infra.Config.{Database}
use hedonify.Infra.Database.{
  MigrateError, nil, no_change, failed, DatabaseHost, postgres_url, migrating, connect,
  new_database_client,
}

-- The down scripts from a version to none.
unfoldable pub down_from : ℕ → Schema → Option Schema
down_from zero s = some s
down_from (suc n) s = elim (script_down (suc n) s) [ none ↦ none | some s' ↦ down_from n s' ]

-- Some up scripts after a version.
unfoldable pub up_from : ℕ → ℕ → Schema → Option Schema
up_from zero v s = some s
up_from (suc n) v s = elim (script_up (suc v) s) [ none ↦ none | some s' ↦ up_from n (suc v) s' ]

-- What golang-migrate documents: Down applies all down migrations, Up all up migrations, from the
-- version that it keeps; ErrNoChange says that there was none to apply.
pub record MigrateLaws (host : DatabaseHost) : Type 0 where
  pub down_nil :
      (m m' : Migrated)
      → host.down m ≡ (nil, m')
      → (m'.version ≡ 0) × (down_from m.version m.schema ≡ some m'.schema)
  pub down_no_change :
      (m m' : Migrated) → host.down m ≡ (no_change, m') → (m.version ≡ 0) × (m' ≡ m)
  pub up_nil :
      (m m' : Migrated)
      → host.up m ≡ (nil, m')
      → (m'.version ≡ 4) × (up_from (4 - m.version) m.version m.schema ≡ some m'.schema)
  pub up_no_change :
      (m m' : Migrated) → m.version ≤ 4 → host.up m ≡ (no_change, m') → (m.version ≡ 4) × (m' ≡ m)

-- The tables of the migrations after the version are not there.
pub record IsMigrated (m : Migrated) : Type 0 where
  pub known : m.version ≤ 4
  pub no_users : m.version < 1 → m.schema.users ≡ none
  pub no_products : m.version < 2 → m.schema.products ≡ none
  pub no_carts : m.version < 3 → m.schema.carts ≡ none
  pub no_cart_items : m.version < 3 → m.schema.cart_items ≡ none
  pub no_order_status : m.version < 4 → m.schema.order_status ≡ false
  pub no_orders : m.version < 4 → m.schema.orders ≡ none
  pub no_order_items : m.version < 4 → m.schema.order_items ≡ none

abbrev pub absent : Schema
absent = record {
  users = none;
  products = none;
  carts = none;
  cart_items = none;
  order_status = false;
  orders = none;
  order_items = none;
}

-- Every table is there and has no row.
abbrev pub emptied : Schema
emptied = record {
  users = some [];
  products = some [];
  carts = some [];
  cart_items = some [];
  order_status = true;
  orders = some [];
  order_items = some [];
}

down_from-absent :
    (v : ℕ) (s : Schema)
    → IsMigrated (record { version = v; schema = s })
    → down_from v s ≡ some absent
unfolding down_from script_down users_down products_down carts_down orders_down
down_from-absent zero s h = ground (
  arith,
  h.no_users (omega arith),
  h.no_products (omega arith),
  h.no_carts (omega arith),
  h.no_cart_items (omega arith),
  h.no_order_status (omega arith),
  h.no_orders (omega arith),
  h.no_order_items (omega arith),
)
down_from-absent (suc zero) s h = ground (
  arith,
  h.no_products (omega arith),
  h.no_carts (omega arith),
  h.no_cart_items (omega arith),
  h.no_order_status (omega arith),
  h.no_orders (omega arith),
  h.no_order_items (omega arith),
)
down_from-absent (suc (suc zero)) s h = ground (
  arith,
  h.no_carts (omega arith),
  h.no_cart_items (omega arith),
  h.no_order_status (omega arith),
  h.no_orders (omega arith),
  h.no_order_items (omega arith),
)
down_from-absent (suc (suc (suc zero))) s h = ground (
  arith,
  h.no_order_status (omega arith),
  h.no_orders (omega arith),
  h.no_order_items (omega arith),
)
down_from-absent (suc (suc (suc (suc zero)))) s h = refl
down_from-absent (suc (suc (suc (suc (suc v))))) s h = absurd (omega (arith, h.known))

up_from-absent : up_from 4 0 absent ≡ some emptied
unfolding up_from script_up users_up products_up carts_up orders_up create_table
up_from-absent = refl

down_from-none : (m : Migrated) → m.version ≡ 0 → down_from m.version m.schema ≡ some m.schema
unfolding down_from
down_from-none m e = rw e refl

abbrev nothing : Migrated
nothing = record { version = 0; schema = absent }

abbrev pub all_empty : Migrated
all_empty = record { version = 4; schema = emptied }

module _ (host : DatabaseHost) (laws : MigrateLaws host) where
  down-nothing :
      (m : Migrated) → IsMigrated m → (host.down m).0 ≢ failed → (host.down m).1 ≡ nothing
  down-nothing m h works = go (host.down m).0 refl
    where
      go : (e : MigrateError) → (host.down m).0 ≡ e → (host.down m).1 ≡ nothing
      go nil e = ground (
        arith,
        laws.down_nil m (host.down m).1 (ap (λ x. (x, (host.down m).1)) e),
        down_from-absent m.version m.schema h,
      )
      go no_change e = ground (
        arith,
        laws.down_no_change m (host.down m).1 (ap (λ x. (x, (host.down m).1)) e),
        down_from-absent m.version m.schema h,
        down_from-none m,
      )
      go failed e = absurd (works e)

  up-all_empty : (host.up nothing).0 ≢ failed → (host.up nothing).1 ≡ all_empty
  up-all_empty works = go (host.up nothing).0 refl
    where
      go : (e : MigrateError) → (host.up nothing).0 ≡ e → (host.up nothing).1 ≡ all_empty
      go nil e = ground (
        arith,
        laws.up_nil nothing (host.up nothing).1 (ap (λ x. (x, (host.up nothing).1)) e),
        up_from-absent,
      )
      go no_change e = ground (
        arith,
        laws.up_no_change nothing (host.up nothing).1 (omega arith)
            (ap (λ x. (x, (host.up nothing).1)) e),
      )
      go failed e = absurd (works e)

migrating_works :
    (call : Migrated → MigrateError × Migrated) (s : System)
    → (call s.migrated).0 ≢ failed
    → migrating call s ≡ returned [] tt (record s { migrated = (call s.migrated).1 })
unfolding migrating ◌>>=◌
migrating_works call s works = ground arith

-- The calls of NewDatabaseClient before the migrations, as they succeed.
pub record Connects (host : DatabaseHost) (config : Database) (id : ℕ) : Type 0 where
  pub parses : host.parse_config (postgres_url host config) ≡ true
  pub makes : host.new_with_config (postgres_url host config) ≡ some id
  pub pings : host.ping id ≡ true
  pub instances : host.with_instance id ≡ true
  pub migrates :
      host.new_with_database_instance config.migration_path (postgres_url host config) ≡ true

-- Where golang-migrate keeps its laws, a database has no tables of migrations after its version,
-- and no call fails, the first NewDatabaseClient of a process returns its pool and leaves every
-- table of the database there and without a row, whatever rows the tables had; one connection of the
-- pool is in use.
pub new_database_client-empties :
    (host : DatabaseHost) (config : Database) (id : ℕ) (m : Migrated)
    → MigrateLaws host
    → IsMigrated m
    → Connects host config id
    → (host.down m).0 ≢ failed
    → (host.up (host.down m).1).0 ≢ failed
    → new_database_client host config (record { pool = none; in_use = 0; migrated = m })
      ≡ returned
          (acquires database ∷ [])
          (some id)
          (record { pool = some id; in_use = 1; migrated = all_empty })
unfolding new_database_client connect ◌>>=◌ must
new_database_client-empties host config id m laws h c downs ups =
    let down : (host.down m).1 ≡ nothing = down-nothing host laws m h downs in
    let ups' : (host.up nothing).0 ≢ failed = subst (λ n. (host.up n).0 ≢ failed) down ups in
    ground (
      arith,
      c.parses,
      c.makes,
      c.pings,
      c.instances,
      c.migrates,
      migrating_works host.down (record { pool = some id; in_use = 1; migrated = m }) downs,
      down,
      migrating_works host.up (record { pool = some id; in_use = 1; migrated = nothing }) ups',
      up-all_empty host laws ups',
    )
