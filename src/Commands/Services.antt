-- ===== src/Commands/Services.antt =====
-- order/cmd/order.go, product/cmd/product.go, cart/cmd/cart.go, user/cmd/user.go,
-- notification/cmd/notification.go and cmd/root.go. The messages and spans are left out, and so are
-- the routers, which are tables of routes in the controllers' files. `<-c.Done()` is passed by the
-- interruption; what the server's goroutine does while main waits stands at that place.
use Prim.Native.String.{String, ◌++◌}
use hedonify.Prelude.{Bool, true, false, List, [], ◌∷◌}
use hedonify.Infra.Run.{
  Resource, cache, queue, server, worker, acquires, releases, abandons, Command, pure, event,
  deferring, ◌>>=◌, ◌>>◌,
}
use hedonify.Infra.Config as Config
use hedonify.Infra.Config.{ConfigHost, get}
use hedonify.Infra.Telemetry.{TelemetryHost, init_otel_sdk, shutdown_otel}
use hedonify.Infra.Database.{DatabaseHost, new_database_client, close_pool}
use hedonify.Infra.Cache.{CacheHost, new_cache_client}

-- The constants of internal/constants/app_name.go, by the commands' names.
abbrev pub app_name : String → String
app_name name = name ++ "-service"

pub record CommandHost : Type 0 where
  pub config : ConfigHost
  pub telemetry : TelemetryHost
  pub database : DatabaseHost
  pub cache : CacheHost
  -- whether ListenAndServe listens, or else returns an error
  pub listens : Bool
  -- whether no connection is active when Shutdown is called, whose context is done by then
  pub drains : Bool

module _ (host : CommandHost) where
  -- The goroutine of the server, with the functions that shut otel down.
  unfoldable pub serve : List Resource → Command (Unit {0})
  serve funcs = elim host.listens [
    | true ↦ event (acquires server)
    | false ↦ shutdown_otel host.telemetry funcs >> pure tt
  ]

  -- server.Shutdown(c), and whether it returns nil. A server that does not listen has nothing to do.
  unfoldable pub shutdown_server : Command Bool
  shutdown_server = elim host.listens [
    | false ↦ pure true
    | true ↦ elim host.drains [
      | true ↦ event (releases server) >> pure true
      | false ↦ event (abandons server) >> pure false
    ]
  ]

  -- The part of a service from InitOtelSdk, with its deferred ShutdownOtel around the rest.
  unfoldable pub with_telemetry : (List Resource → Command (Unit {0})) → Command (Unit {0})
  with_telemetry body = init_otel_sdk host.telemetry >>= λ r. elim r.1 [
    | false ↦ pure tt
    | true ↦ deferring (shutdown_otel host.telemetry r.0 >> pure tt) (body r.0)
  ]

  -- The part from NewDatabaseClient, with its deferred db.Close.
  unfoldable pub with_database : Config.Database → Command (Unit {0}) → Command (Unit {0})
  with_database config body = new_database_client host.database config >> deferring close_pool body

  -- The part from NewCacheClient, with its deferred cache.Close.
  unfoldable pub with_cache : Config.Cache → Command (Unit {0}) → Command (Unit {0})
  with_cache config body =
      new_cache_client host.cache config >> deferring (event (releases cache)) body

  -- RunOrderService: wg.Wait returns when the worker has.
  unfoldable pub run_order_service : Command (Unit {0})
  run_order_service = get host.config "order-service" >>= λ cfg. with_telemetry λ funcs.
      with_database cfg.database (
        with_cache cfg.cache (
          event (acquires queue)
          >> deferring (event (releases queue)) (
              deferring (shutdown_server >> pure tt)
                (serve funcs >> (event (acquires worker) >> event (releases worker))))))

  -- RunProductService
  unfoldable pub run_product_service : Command (Unit {0})
  run_product_service = get host.config "product-service" >>= λ cfg. with_telemetry λ funcs.
      with_database cfg.database
        (with_cache cfg.cache (deferring (shutdown_server >> pure tt) (serve funcs)))

  -- RunCartService: Shutdown is its last statement, whatever it returns.
  unfoldable pub run_cart_service : Command (Unit {0})
  run_cart_service = get host.config "cart-service" >>= λ cfg. with_telemetry λ funcs.
      with_database cfg.database (with_cache cfg.cache (serve funcs >> shutdown_server >> pure tt))

  -- RunUserService
  unfoldable pub run_user_service : Command (Unit {0})
  run_user_service = get host.config "user-service" >>= λ cfg.
      with_telemetry λ funcs. with_database cfg.database (with_cache cfg.cache (serve funcs))

  -- RunNotificationService, which defers nothing.
  unfoldable pub run_notification_service : Command (Unit {0})
  run_notification_service = get host.config "notification-service" >>= λ cfg.
      init_otel_sdk host.telemetry >>= λ r. elim r.1 [
        | false ↦ pure tt
        | true ↦ serve r.0 >> shutdown_server >>= λ drained. elim drained [
          | false ↦ pure tt
          | true ↦ shutdown_otel host.telemetry r.0 >> pure tt
        ]
      ]

  -- The commands of Start.
  unfoldable pub commands : List (String × Command (Unit {0}))
  commands =
      ("cart", run_cart_service)
      ∷ ("notification", run_notification_service)
      ∷ ("order", run_order_service)
      ∷ ("product", run_product_service)
      ∷ ("user", run_user_service)
      ∷ []
