-- ===== src/Infra/Held.antt =====
-- The connection of the migrations' driver, which nothing gives back to the pool.
use hedonify.Prelude.{ℕ, ◌+◌, ◌≡◌, Option, [], ◌∷◌, arith}
use hedonify.Infra.Run.{System, returned, acquires, database, ◌>>=◌, must}
use hedonify.Infra.Config.{Database}
use hedonify.Infra.Database.{DatabaseHost, migrating, connect, new_database_client}

-- A NewDatabaseClient that opens the database leaves one connection more in use.
pub new_database_client-in_use :
    (host : DatabaseHost) (config : Database) (s s' : System) (pool : Option ℕ)
    → new_database_client host config s ≡ returned (acquires database ∷ []) pool s'
    → s'.in_use ≡ s.in_use + 1
unfolding new_database_client connect migrating must ◌>>=◌
new_database_client-in_use host config s s' pool e = ground arith
