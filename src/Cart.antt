-- ===== src/Cart.antt =====
-- The cart service: cart/pkg and cart/internal/service/cart.go.
pub mod Request
pub mod Merge
pub mod Service
pub mod Swapped
pub mod Cached
pub mod Inserted
pub mod Orders
pub mod Reads
pub mod Checkout
pub mod Controller
pub mod Tests
