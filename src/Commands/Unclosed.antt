-- ===== src/Commands/Unclosed.antt =====
-- The services at their end: what they leave open.
use Prim.Native.String.{String}
use mathlib.Core.List.{Memᴰ}
use hedonify.Prelude.{◌≡◌, refl, sym, subst, true, false, List, [], ◌∷◌, ◌++◌}
use hedonify.Infra.Run.{
  Resource, tracer_provider, meter_provider, database, cache, queue, server, worker, Event,
  acquires, releases, abandons, System, returned, hangs, Command, ◌>>=◌, deferring,
}
use hedonify.Infra.Config as Config
use hedonify.Infra.Config.{get}
use hedonify.Infra.Runs.{bind_returned}
use hedonify.Infra.Telemetry.{init_otel_sdk}
use hedonify.Commands.Services.{
  CommandHost, app_name, serve, shutdown_server, with_telemetry, run_order_service,
  run_product_service, run_cart_service, run_user_service, run_notification_service, commands,
}
use hedonify.Commands.Connected.{Starts, connected_hangs}
use hedonify.Commands.Nested.{is_open}

-- A run that never ends, and in which a resource is still open when another is released.
pub record Outlives (r other : Resource) (c : Command (Unit {0})) (s s' : System) : Type 0 where
  pub before : List Event
  pub later : List Event
  pub runs : c s ≡ hangs (before ++ releases other ∷ later) s'
  pub remains : is_open r false before ≡ true
  pub stays : is_open r false (before ++ releases other ∷ later) ≡ true

module _ (host : CommandHost) (cfg : Config.Config) (s s' : System) where
  -- The user service never shuts its server down: when its calls have succeeded and the server
  -- listens, it closes its cache while the server is open, and then waits for ever with the server
  -- open.
  pub run_user_service-Outlives :
      Starts host "user-service" cfg s s'
      → host.listens ≡ true
      → Outlives server cache (run_user_service host) s s'
  unfolding run_user_service serve
  run_user_service-Outlives st listens = record {
    before =
        acquires tracer_provider
        ∷ acquires meter_provider
        ∷ acquires database
        ∷ acquires cache
        ∷ acquires server
        ∷ [];
    later = [];
    runs =
        connected_hangs host "user-service" cfg s s' (acquires server ∷ []) st (serve host)
          (rw listens refl);
    remains = refl;
    stays = refl;
  }

  -- The order service calls Shutdown with a context that is done: when its calls have succeeded, the
  -- server listens and a connection is active at the interruption, it closes the queue, to which the
  -- handlers send, and the cache, while handlers run, and then waits for ever.
  pub run_order_service-Outlives :
      Starts host "order-service" cfg s s'
      → host.listens ≡ true
      → host.drains ≡ false
      → Outlives server queue (run_order_service host) s s'
  unfolding run_order_service serve shutdown_server deferring ◌>>=◌
  run_order_service-Outlives st listens drains = record {
    before =
        acquires tracer_provider
        ∷ acquires meter_provider
        ∷ acquires database
        ∷ acquires cache
        ∷ acquires queue
        ∷ acquires server
        ∷ acquires worker
        ∷ releases worker
        ∷ abandons server
        ∷ [];
    later = releases cache ∷ [];
    runs =
        connected_hangs host "order-service" cfg s s'
          (acquires queue
            ∷ acquires server
            ∷ acquires worker
            ∷ releases worker
            ∷ abandons server
            ∷ releases queue
            ∷ [])
          st _ (rw (listens, drains) refl);
    remains = refl;
    stays = refl;
  }

module _ (host : CommandHost) where
  telemetry_fails :
      (body : List Resource → Command (Unit {0})) (s : System)
      → host.telemetry.resource ≡ true
      → host.telemetry.tracer ≡ true
      → host.telemetry.meter ≡ false
      → with_telemetry host body s ≡ returned (acquires tracer_provider ∷ []) tt s
  unfolding with_telemetry init_otel_sdk ◌>>=◌
  telemetry_fails body s resource tracer meter = rw (resource, tracer, meter) refl

  -- When its configuration is read and the provider of traces is made, but that of metrics is not,
  -- every service returns before it connects to anything, and leaves the provider of traces without
  -- a Shutdown.
  commands-leave :
      (name : String) (run : Command (Unit {0})) (cfg : Config.Config) (s : System)
      → Memᴰ (name, run) (commands host)
      → get host.config (app_name name) s ≡ returned [] cfg s
      → host.telemetry.resource ≡ true
      → host.telemetry.tracer ≡ true
      → host.telemetry.meter ≡ false
      → run s ≡ returned (acquires tracer_provider ∷ []) tt s
  unfolding commands run_order_service run_product_service run_cart_service run_user_service
      run_notification_service init_otel_sdk ◌>>=◌
  commands-leave name run cfg s found reads resource tracer meter = go found reads
    where
      Leaves : String × Command (Unit {0}) → Type 0
      Leaves p =
          get host.config (app_name p.0) s ≡ returned [] cfg s
          → p.1 s ≡ returned (acquires tracer_provider ∷ []) tt s

      is : {p q : String × Command (Unit {0})} → Leaves q → p ≡ q → Leaves p
      is leaves e = subst Leaves (sym e) leaves

      connected :
          (name : String) (body : Config.Config → List Resource → Command (Unit {0}))
          → Leaves (name, get host.config (app_name name) >>= λ c. with_telemetry host (body c))
      connected name body reads =
          bind_returned (get host.config (app_name name)) (λ c. with_telemetry host (body c)) reads
            (telemetry_fails (body cfg) s resource tracer meter)

      go : {p : String × Command (Unit {0})} → Memᴰ p (commands host) → Leaves p
      go (Memᴰ.head e) = is (connected "cart" _) e
      go (Memᴰ.tail (Memᴰ.head e)) =
          is
            (λ reads.
              bind_returned (get host.config "notification-service") _ reads
                (rw (resource, tracer, meter) refl))
            e
      go (Memᴰ.tail (Memᴰ.tail (Memᴰ.head e))) = is (connected "order" _) e
      go (Memᴰ.tail (Memᴰ.tail (Memᴰ.tail (Memᴰ.head e)))) = is (connected "product" _) e
      go (Memᴰ.tail (Memᴰ.tail (Memᴰ.tail (Memᴰ.tail (Memᴰ.head e))))) = is (connected "user" _) e
      go (Memᴰ.tail (Memᴰ.tail (Memᴰ.tail (Memᴰ.tail (Memᴰ.tail none'))))) = elim none' [ ]
