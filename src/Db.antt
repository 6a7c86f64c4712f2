-- ===== src/Db.antt =====
-- services/api/app/db: the tables, and the repositories over them.
pub mod Table
pub mod Schema
pub mod MarketRepository
pub mod EventRepository
pub mod Checks
