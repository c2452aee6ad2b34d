-- ===== src/Batch.antt =====
-- internal/service/batch/service.go over the tables of internal/repository/sqlstore/batches.go.
pub mod Rows
pub mod Store
pub mod Work
pub mod Sound
pub mod Items
pub mod Jobs
