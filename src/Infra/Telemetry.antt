-- ===== src/Infra/Telemetry.antt =====
-- internal/otel/otel.go. The providers' own functions are parameters.
use mathlib.Core.List.{Permᴰ}
use hedonify.Prelude.{Bool, true, false, List, [], ◌∷◌, Option, none, some, if◌then◌else◌, map}
use hedonify.Infra.Run.{
  Resource, tracer_provider, meter_provider, releases, returned, Command, pure, event, ◌>>◌,
  acquires,
}

pub record TelemetryHost : Type 0 where
  -- resource.New, trace.InitTracerProvider and metric.InitMetricProvider: whether they succeed
  pub resource : Bool
  pub tracer : Bool
  pub meter : Bool
  -- whether Shutdown of a provider returns an error
  pub fails : Resource → Bool
  -- the order in which the goroutines of ShutdownOtel end
  pub order : List Resource → List Resource
  pub order_perm : (providers : List Resource) → Permᴰ providers (order providers)

-- InitOtelSdk: the functions to shut down, as their providers, and whether there is no error.
unfoldable pub init_otel_sdk : TelemetryHost → Command (List Resource × Bool)
init_otel_sdk host = elim host.resource [
  | false ↦ pure ([], false)
  | true ↦ elim host.tracer [
    | false ↦ pure ([], false)
    | true ↦ event (acquires tracer_provider) >> (elim host.meter [
      | false ↦ pure (tracer_provider ∷ [], false)
      | true ↦ event (acquires meter_provider) >> pure (tracer_provider ∷ meter_provider ∷ [], true)
    ])
  ]
]

-- The goroutines of ShutdownOtel, as they end: each that fails overwrites err.
unfoldable pub joined : TelemetryHost → Option Resource → List Resource → Option Resource
joined host err [] = err
joined host err (p ∷ ps) = joined host (if host.fails p then some p else err) ps

-- ShutdownOtel: the provider whose error it returns.
unfoldable pub shutdown_otel : TelemetryHost → List Resource → Command (Option Resource)
shutdown_otel host providers s =
    returned (map releases (host.order providers)) (joined host none (host.order providers)) s
