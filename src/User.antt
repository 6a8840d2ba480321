-- ===== src/User.antt =====
-- The user service: user/pkg and user/internal/service/user.go.
pub mod Request
pub mod Service
pub mod Passwords
pub mod Registration
pub mod Admission
pub mod Tokens
pub mod Controller
pub mod Tests
