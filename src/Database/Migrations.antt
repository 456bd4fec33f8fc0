-- ===== src/Database/Migrations.antt =====
-- src/pybmpmon/database/migrations.py
pub mod Files
pub mod Runner
pub mod FilesLaws
pub mod RunnerLaws
pub mod RunLaws
pub mod Rerun
mod Examples
