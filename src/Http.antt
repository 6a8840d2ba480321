-- ===== src/Http.antt =====
-- What the controllers share: internal/http, internal/middleware, internal/log/context.go and
-- internal/token.go.
pub mod Message
pub mod Token
pub mod Middleware
pub mod Runs
pub mod Access
pub mod Success
pub mod Given
pub mod Samples
