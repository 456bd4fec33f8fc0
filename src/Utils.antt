-- ===== src/Utils.antt =====
-- src/pybmpmon/utils
pub mod Binary
pub mod Address
pub mod Text
