-- ===== src/Exchanges.antt =====
-- internal/infrastructure/exchanges/exchanges.go: what every exchange client delivers.
pub mod Channels
pub mod Session
pub mod Http
pub mod Bybit
pub mod Okx
pub mod Binance
use exchange_data_importer.Prelude.{String}
use exchange_data_importer.Time.{Time}

-- `exchanges.Ticker` and `exchanges.Liquidation`.
pub record ExchangeTicker (F : Type 0) : Type 0 where
  pub symbol : String
  pub ask_price : F
  pub bid_price : F
  pub ask_quantity : F
  pub bid_quantity : F
  pub event_at : Time

pub record ExchangeLiquidation (F : Type 0) : Type 0 where
  pub symbol : String
  pub side : String
  pub price : F
  pub quantity : F
  pub total_price : F
  pub event_at : Time
