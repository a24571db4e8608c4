-- ===== src/Repository.antt =====
-- internal/infrastructure/repository: the liquidation repositories.
pub mod Memory
pub mod Agreement
pub mod Sqlite
pub mod Mongo
pub mod Factories
