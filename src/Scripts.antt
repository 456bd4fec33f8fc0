-- ===== src/Scripts.antt =====
-- The scripts beside the package.
pub mod InitDb
pub mod DecodeBmp
