-- ===== src/Product.antt =====
-- The product service: product/pkg and product/internal/service/product.go.
pub mod Request
pub mod Service
pub mod Rows
pub mod Coherence
pub mod Controller
pub mod Tests
