-- ===== src/Repository.antt =====
-- The code of internal/repository: the rows of the tables, the statements, and the conversions.
pub mod Models
pub mod Products
pub mod Orders
pub mod Users
pub mod Carts
pub mod Mapper
pub mod Unused
pub mod Status
pub mod Integrity
