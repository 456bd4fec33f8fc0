-- ===== src/Database/Connection.antt =====
-- src/pybmpmon/database/connection.py
pub mod MacAddress
pub mod MacRoundTrip
pub mod Pool
mod Examples
