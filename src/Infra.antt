-- ===== src/Infra.antt =====
-- internal/infra, internal/config, internal/otel and migrations: what a service connects to when it
-- starts.
pub mod Run
pub mod Runs
pub mod Config
pub mod Telemetry
pub mod Schema
pub mod Database
pub mod Cache
pub mod Emptied
pub mod Held
