-- ===== src/Importer.antt =====
-- internal/importer: the import of ticks and liquidations.
pub mod History
pub mod Minutes
pub mod Candle
pub mod Outcome
pub mod Tick
pub mod OnePerMinute
pub mod Start
pub mod Liquidations
pub mod Imported
pub mod Metrics
pub mod Stream
