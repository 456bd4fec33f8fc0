-- ===== src/Models.antt =====
-- src/pybmpmon/models
pub mod Route
pub mod BmpPeer
