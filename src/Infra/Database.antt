-- ===== src/Infra/Database.antt =====
-- internal/infra/database.go. pgx and golang-migrate are parameters; migrations/*.sql are not.
use Prim.Native.String.{String, ◌++◌}
use hedonify.Prelude.{ℕ, ◌+◌, ◌==◌, Bool, true, false, Option, none, some, []}
use hedonify.Infra.Run.{
  Migrated, Command, pure, fatal, event, must, database, acquires, releases, hangs, update, current,
  ◌>>=◌, ◌>>◌,
}
use hedonify.Infra.Config.{Database}

-- What the methods of migrate.Migrate return: nil, migrate.ErrNoChange or another error.
pub data MigrateError : Type 0 where
  nil no_change failed : MigrateError

pub record DatabaseHost : Type 0 where
  -- fmt's %d
  pub digits : ℕ → String
  -- pgxpool.ParseConfig
  pub parse_config : String → Bool
  -- pgxpool.NewWithConfig and Ping
  pub new_with_config : String → Option ℕ
  pub ping : ℕ → Bool
  -- postgres.WithInstance, which takes a connection for the driver and keeps it until the driver's
  -- Close, and migrate.NewWithDatabaseInstance
  pub with_instance : ℕ → Bool
  pub new_with_database_instance : String → String → Bool
  pub down : Migrated → MigrateError × Migrated
  pub up : Migrated → MigrateError × Migrated

-- The format `postgres://%s:%s@%s:%d/%s?sslmode=disable`.
unfoldable pub postgres_url : DatabaseHost → Database → String
postgres_url host config =
    "postgres://"
    ++ (config.username
        ++ (":"
            ++ (config.password
                ++ ("@"
                    ++ (config.host
                        ++ (":"
                            ++ (host.digits config.port
                                ++ ("/" ++ (config.name ++ "?sslmode=disable")))))))))

-- A call of Down or Up: ErrNoChange is not an error.
unfoldable pub migrating : (Migrated → MigrateError × Migrated) → Command (Unit {0})
migrating call = current (λ s. call s.migrated) >>= λ r.
    update (λ s. record s { migrated = r.1 })
    >> (elim r.0 [ nil ↦ pure tt | no_change ↦ pure tt | failed ↦ fatal ])

unfoldable pub connect : DatabaseHost → Database → Command (Unit {0})
connect host config =
    must (host.parse_config (postgres_url host config))
    >> (elim (host.new_with_config (postgres_url host config)) [
      | none ↦ fatal
      | some pool ↦
          event (acquires database)
          >> update (λ s. record s { pool = some pool })
          >> must (host.ping pool)
          >> must (host.with_instance pool)
          >> update (λ s. record s { in_use = s.in_use + 1 })
          >> must (host.new_with_database_instance config.migration_path (postgres_url host config))
          >> migrating host.down
          >> migrating host.up
    ])

-- NewDatabaseClient: dbOnce runs the function once in a process.
unfoldable pub new_database_client : DatabaseHost → Database → Command (Option ℕ)
new_database_client host config = current (λ s. s.pool) >>= λ made.
    (elim made [ none ↦ connect host config | some pool ↦ pure tt ]) >> current (λ s. s.pool)

-- db.Close, which returns once every connection of the pool has been given back.
unfoldable pub close_pool : Command (Unit {0})
close_pool s = elim (s.in_use == 0) [ true ↦ event (releases database) s | false ↦ hangs [] s ]
