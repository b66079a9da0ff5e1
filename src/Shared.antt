-- ===== src/Shared.antt =====
-- postgres_workqueue/model.go says that both database backends can be pointed at the same table
-- interchangeably: histories in which processes of gorm_workqueue and of postgres_workqueue work on
-- one table.
pub mod Protocol
pub mod FromGorm
pub mod FromPostgres
pub mod History
pub mod Survival
pub mod Attempts
mod Tests
