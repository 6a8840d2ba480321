-- ===== src/Infra/Cache.antt =====
-- internal/infra/cache.go. go-redis and redisotel are parameters.
use hedonify.Prelude.{Bool}
use hedonify.Infra.Run.{Command, cache, acquires, event, must, ◌>>◌}
use hedonify.Infra.Config.{Cache}

pub record CacheHost : Type 0 where
  pub instrument_tracing : Bool
  pub instrument_metrics : Bool
  pub ping : Cache → Bool

-- NewCacheClient, at its only call in a process.
unfoldable pub new_cache_client : CacheHost → Cache → Command (Unit {0})
new_cache_client host config =
    event (acquires cache)
    >> must host.instrument_tracing
    >> must host.instrument_metrics
    >> must (host.ping config)
