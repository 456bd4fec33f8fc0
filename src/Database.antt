-- ===== src/Database.antt =====
-- src/pybmpmon/database: the writer of routes, the operations on the tables, the migrations and the
-- connection pool.
pub mod Tables
pub mod BatchWriter
pub mod Operations
pub mod Migrations
pub mod Connection
pub mod RouteState
