-- ===== src/Domain.antt =====
-- internal/domain: the entities and their rules.
pub mod Order
pub mod Liquidation
pub mod Ticker
pub mod Indicators
