-- ===== src/Service.antt =====
-- What the product, user and cart services share: the tables, the cache, and calls that can fail.
pub mod World
pub mod Call
pub mod Rules
pub mod Keeps
