-- ===== src/Db.antt =====
-- internal/db: opening the database and migrating its schema.
pub mod Schema
pub mod Memory
pub mod Migrations
pub mod Pool
