-- ===== src/Db.antt =====
-- internal/db: the tables and the SQL statements of the package db.
pub mod Schema
pub mod Session
pub mod Like
pub mod Query
pub mod History
pub mod Project
pub mod Reset
pub mod Update
pub mod Gc
pub mod Copy
pub mod Cache
pub mod Content
pub mod Stream
pub mod Tar
pub mod Pack
