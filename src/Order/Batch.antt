-- ===== src/Order/Batch.antt =====
-- BatchCreateOrder of order/internal/service/order.go and its helpers.
pub mod Items
pub mod Merge
pub mod Check
pub mod Prepare
pub mod Attempt
pub mod Create
pub mod Late
pub mod Stock
