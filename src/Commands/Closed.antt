-- ===== src/Commands/Closed.antt =====
-- The services after the interruption.
use Prim.Native.String.{String}
use mathlib.Core.List.{Memᴰ, append-nil}
use hedonify.Prelude.{
  ◌≡◌, ◌≢◌, refl, ap, sym, subst, inl, inr, Bool-cases, true, List, [], ◌∷◌, ◌++◌, map,
}
use hedonify.Infra.Run.{
  Resource, tracer_provider, meter_provider, queue, server, worker, acquires, releases, abandons,
  System, returned, Command, ◌>>=◌, deferring,
}
use hedonify.Infra.Config as Config
use hedonify.Infra.Config.{get}
use hedonify.Infra.Runs.{bind_returned}
use hedonify.Infra.Telemetry.{init_otel_sdk, shutdown_otel}
use hedonify.Commands.Services.{
  CommandHost, app_name, serve, shutdown_server, run_order_service, run_product_service,
  run_cart_service, run_user_service, run_notification_service, commands,
}
use hedonify.Commands.Connected.{Starts, connected_hangs}
use hedonify.Commands.Nested.{nothing, around, single, Closes, Hangs}

module _ (host : CommandHost) (cfg : Config.Config) (s s' : System)
    (listens : host.listens ≡ true) where
  run_order_service-Hangs :
      Starts host "order-service" cfg s s' → Hangs (run_order_service host) s s'
  unfolding run_order_service serve shutdown_server deferring ◌>>=◌
  run_order_service-Hangs st = elim (Bool-cases host.drains) [
    | inl drains ↦ record {
      events = _;
      runs =
          connected_hangs host "order-service" cfg s s'
            (acquires queue
              ∷ acquires server
              ∷ acquires worker
              ∷ releases worker
              ∷ releases server
              ∷ releases queue
              ∷ [])
            st _ (rw (listens, drains) refl);
      tracer_open = refl;
      meter_open = refl;
      database_open = refl;
      cache_closed = refl;
    }
    | inr busy ↦ record {
      events = _;
      runs =
          connected_hangs host "order-service" cfg s s'
            (acquires queue
              ∷ acquires server
              ∷ acquires worker
              ∷ releases worker
              ∷ abandons server
              ∷ releases queue
              ∷ [])
            st _ (rw (listens, busy) refl);
      tracer_open = refl;
      meter_open = refl;
      database_open = refl;
      cache_closed = refl;
    }
  ]

  run_product_service-Hangs :
      Starts host "product-service" cfg s s' → Hangs (run_product_service host) s s'
  unfolding run_product_service serve shutdown_server deferring ◌>>=◌
  run_product_service-Hangs st = elim (Bool-cases host.drains) [
    | inl drains ↦ record {
      events = _;
      runs =
          connected_hangs host "product-service" cfg s s' (acquires server ∷ releases server ∷ [])
            st _ (rw (listens, drains) refl);
      tracer_open = refl;
      meter_open = refl;
      database_open = refl;
      cache_closed = refl;
    }
    | inr busy ↦ record {
      events = _;
      runs =
          connected_hangs host "product-service" cfg s s' (acquires server ∷ abandons server ∷ [])
            st _ (rw (listens, busy) refl);
      tracer_open = refl;
      meter_open = refl;
      database_open = refl;
      cache_closed = refl;
    }
  ]

  run_cart_service-Hangs : Starts host "cart-service" cfg s s' → Hangs (run_cart_service host) s s'
  unfolding run_cart_service serve shutdown_server ◌>>=◌
  run_cart_service-Hangs st = elim (Bool-cases host.drains) [
    | inl drains ↦ record {
      events = _;
      runs =
          connected_hangs host "cart-service" cfg s s' (acquires server ∷ releases server ∷ []) st _
            (rw (listens, drains) refl);
      tracer_open = refl;
      meter_open = refl;
      database_open = refl;
      cache_closed = refl;
    }
    | inr busy ↦ record {
      events = _;
      runs =
          connected_hangs host "cart-service" cfg s s' (acquires server ∷ abandons server ∷ []) st _
            (rw (listens, busy) refl);
      tracer_open = refl;
      meter_open = refl;
      database_open = refl;
      cache_closed = refl;
    }
  ]

  run_user_service-Hangs : Starts host "user-service" cfg s s' → Hangs (run_user_service host) s s'
  unfolding run_user_service serve
  run_user_service-Hangs st = record {
    events = _;
    runs =
        connected_hangs host "user-service" cfg s s' (acquires server ∷ []) st _ (rw listens refl);
    tracer_open = refl;
    meter_open = refl;
    database_open = refl;
    cache_closed = refl;
  }

  -- The notification service has no database: it returns, and has closed what it opened.
  run_notification_service-Closes :
      host.drains ≡ true
      → Starts host "notification-service" cfg s s'
      → Closes (run_notification_service host) s s
  unfolding run_notification_service serve shutdown_server init_otel_sdk shutdown_otel ◌>>=◌
  run_notification_service-Closes drains st =
      let order : List Resource = host.telemetry.order (tracer_provider ∷ meter_provider ∷ []) in
      (
        acquires tracer_provider
            ∷ acquires meter_provider
            ∷ ((acquires server ∷ releases server ∷ []) ++ map releases order),
        bind_returned (get host.config "notification-service") _ st.reads (
            rw (st.resource, st.tracer, st.meter, listens, drains)
              (ap
                (λ gs.
                  returned
                    (acquires tracer_provider
                      ∷ acquires meter_provider
                      ∷ acquires server
                      ∷ releases server
                      ∷ gs)
                    tt s)
                (append-nil (map releases order)))),
        around (tracer_provider ∷ meter_provider ∷ []) order
            (host.telemetry.order_perm (tracer_provider ∷ meter_provider ∷ []))
            (single server nothing),
      )

  -- Every service but the notification service, when its calls have succeeded and its server listens,
  -- never returns: after the interruption it has closed its cache and waits for ever in db.Close,
  -- for the connection that the driver of the migrations keeps, and so telemetry is never shut down.
  pub commands-Hang :
      (name : String) (run : Command (Unit {0}))
      → Memᴰ (name, run) (commands host)
      → ◌≢◌ {A = String} name "notification"
      → Starts host (app_name name) cfg s s'
      → Hangs run s s'
  unfolding commands
  commands-Hang name run found other st = go found other st
    where
      Waits : String × Command (Unit {0}) → Type 0
      Waits p =
          ◌≢◌ {A = String} p.0 "notification" → Starts host (app_name p.0) cfg s s' → Hangs p.1 s s'

      is : {p q : String × Command (Unit {0})} → Waits q → p ≡ q → Waits p
      is waits e = subst Waits (sym e) waits

      go : {p : String × Command (Unit {0})} → Memᴰ p (commands host) → Waits p
      go (Memᴰ.head e) = is (λ _ st. run_cart_service-Hangs st) e
      go (Memᴰ.tail (Memᴰ.head e)) = is (λ other. absurd (other refl)) e
      go (Memᴰ.tail (Memᴰ.tail (Memᴰ.head e))) = is (λ _ st. run_order_service-Hangs st) e
      go (Memᴰ.tail (Memᴰ.tail (Memᴰ.tail (Memᴰ.head e)))) =
          is (λ _ st. run_product_service-Hangs st) e
      go (Memᴰ.tail (Memᴰ.tail (Memᴰ.tail (Memᴰ.tail (Memᴰ.head e))))) =
          is (λ _ st. run_user_service-Hangs st) e
      go (Memᴰ.tail (Memᴰ.tail (Memᴰ.tail (Memᴰ.tail (Memᴰ.tail none'))))) = elim none' [ ]
