-- ===== src/Order.antt =====
-- The order service: what it is sent, what it answers, the batch that creates orders, the result
-- channels, and the worker that runs the batches.
pub mod Request
pub mod Batch
pub mod Channel
pub mod Worker
pub mod Queries
pub mod Controller
pub mod Tests
