-- ===== src/Order/Batch/Stock.antt =====
-- The stock across the transaction of BatchCreateOrder.
pub mod Keys
pub mod Decrease
pub mod Sold
pub mod Taken
pub mod Rows
pub mod Steps
pub mod Conservation
pub mod Ends
pub mod Race
pub mod Unknown
