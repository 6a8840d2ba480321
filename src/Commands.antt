-- ===== src/Commands.antt =====
-- cmd/root.go and the cmd folder of each service: how a service starts and ends.
pub mod Services
pub mod Connected
pub mod Nested
pub mod Closed
pub mod Unclosed
pub mod Tests
