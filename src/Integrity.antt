-- ===== src/Integrity.antt =====
-- The services against the constraints of the tables.
pub mod Products
pub mod Users
pub mod Carts
pub mod Orders
pub mod Runs
pub mod Tests
