-- ===== src/Database.antt =====
-- The PostgreSQL schema of postgres/migrations and the common queries of rsync-core/src/pg.rs.
-- A table is a list of rows. A repository is known by its unique name.
pub mod Revisions
pub mod Order
pub mod Insert
