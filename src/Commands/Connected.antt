-- ===== src/Commands/Connected.antt =====
-- How a service runs between its connections: telemetry, the database and the cache.
use Prim.Native.String.{String}
use mathlib.Core.List.{append-nil}
use hedonify.Prelude.{
  ℕ, ◌+◌, ◌==◌, ==_iff, arith, ◌≡◌, ◌∙◌, refl, ap, true, false, List, [], ◌∷◌, ◌++◌, Option,
}
use hedonify.Infra.Run.{
  Resource, tracer_provider, meter_provider, database, cache, Event, acquires, releases, System,
  returned, hangs, Command, after, ◌>>=◌, ◌>>◌, event, pure, must,
}
use hedonify.Infra.Config as Config
use hedonify.Infra.Config.{get}
use hedonify.Infra.Runs.{
  bind_returned, deferring_returned, bind_hangs, deferring_hangs, deferred_hangs,
}
use hedonify.Infra.Telemetry.{init_otel_sdk, shutdown_otel}
use hedonify.Infra.Database.{new_database_client, close_pool}
use hedonify.Infra.Held.{new_database_client-in_use}
use hedonify.Infra.Cache.{new_cache_client}
use hedonify.Commands.Services.{CommandHost, with_telemetry, with_database, with_cache}

-- The calls that a service makes until it serves succeed: its configuration is read, and its
-- database opens.
pub record Starts (host : CommandHost) (name : String) (cfg : Config.Config) (s s' : System)
    : Type 0 where
  pub pool : Option ℕ
  pub reads : get host.config name s ≡ returned [] cfg s
  pub resource : host.telemetry.resource ≡ true
  pub tracer : host.telemetry.tracer ≡ true
  pub meter : host.telemetry.meter ≡ true
  pub opens :
      new_database_client host.database cfg.database s ≡ returned (acquires database ∷ []) pool s'
  pub tracing : host.cache.instrument_tracing ≡ true
  pub metrics : host.cache.instrument_metrics ≡ true
  pub pings : host.cache.ping cfg.cache ≡ true

abbrev pub providers : List Resource
providers = tracer_provider ∷ meter_provider ∷ []

-- What a run has opened and closed when it waits in db.Close, given the events of its body.
abbrev pub waiting : List Event → List Event
waiting es =
    acquires tracer_provider
    ∷ acquires meter_provider
    ∷ acquires database
    ∷ acquires cache
    ∷ (es ++ releases cache ∷ [])

module _ (host : CommandHost) where
  opens_cache :
      (config : Config.Cache) (s : System)
      → host.cache.instrument_tracing ≡ true
      → host.cache.instrument_metrics ≡ true
      → host.cache.ping config ≡ true
      → new_cache_client host.cache config s ≡ returned (acquires cache ∷ []) tt s
  unfolding new_cache_client must ◌>>=◌
  opens_cache config s tracing metrics pings = rw (tracing, metrics, pings) refl

  -- db.Close waits for the connection of the migrations' driver.
  closes_never :
      (config : Config.Database) (s s' : System) (pool : Option ℕ)
      → new_database_client host.database config s ≡ returned (acquires database ∷ []) pool s'
      → close_pool s' ≡ hangs [] s'
  unfolding close_pool
  closes_never config s s' pool e =
      let held : s'.in_use ≡ s.in_use + 1 =
        new_database_client-in_use host.database config s s' pool e in
      let used : (s'.in_use == 0) ≡ false = ground (arith, ==_iff s'.in_use 0, held) in
      rw (close_pool, used) refl

  telemetry_hangs :
      (body : List Resource → Command (Unit {0})) (s s' : System) (es : List Event)
      → host.telemetry.resource ≡ true
      → host.telemetry.tracer ≡ true
      → host.telemetry.meter ≡ true
      → body providers s ≡ hangs es s'
      → with_telemetry host body s
        ≡ hangs (acquires tracer_provider ∷ acquires meter_provider ∷ es) s'
  unfolding with_telemetry init_otel_sdk ◌>>=◌
  telemetry_hangs body s s' es resource tracer meter runs =
      rw (resource, tracer, meter)
        (ap (after (acquires tracer_provider ∷ acquires meter_provider ∷ [])) (
          deferring_hangs (shutdown_otel host.telemetry providers >> pure tt) (body providers)
            runs))

  -- A service whose body returns waits in db.Close for ever, and its telemetry is not shut down.
  pub connected_hangs :
      (name : String) (cfg : Config.Config) (s s' : System) (es : List Event)
      → Starts host name cfg s s'
      → (body : List Resource → Command (Unit {0})) → body providers s' ≡ returned es tt s'
      → (get host.config name >>= λ c.
            with_telemetry host
              λ funcs. with_database host c.database (with_cache host c.cache (body funcs)))
          s
        ≡ hangs (waiting es) s'
  unfolding with_database with_cache
  connected_hangs name cfg s s' es st body runs = bind_hangs (get host.config name) _ st.reads (
      telemetry_hangs _ s s' _ st.resource st.tracer st.meter (
        bind_hangs (new_database_client host.database cfg.database) _ st.opens (
          deferred_hangs close_pool _
            (bind_returned (new_cache_client host.cache cfg.cache) _
              (opens_cache cfg.cache s' st.tracing st.metrics st.pings)
              (deferring_returned (event (releases cache)) (body providers) runs refl))
            (closes_never cfg.database s s' st.pool st.opens)
          ∙ ap (λ gs. hangs gs s') (append-nil (acquires cache ∷ (es ++ releases cache ∷ []))))))
