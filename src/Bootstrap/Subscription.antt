-- ===== src/Bootstrap/Subscription.antt =====
-- internal/infrastructure/exchanges/{binance,bybit,okx}/client.go: the subscription of the exchange
-- that an application runs on. Its websocket, the number parsers and the context are parameters.
pub mod Total
use exchange_data_importer.Prelude.{ℕ, String, Option, List, []}
use exchange_data_importer.Prelude.Int.{ℤ}
use exchange_data_importer.Float.{Float}
use exchange_data_importer.Errors.{Result}
use exchange_data_importer.Exchanges.Channels.{Channels, empty_backlog}
use exchange_data_importer.Exchanges.Session.{Attempt, Stage}
use exchange_data_importer.Exchanges.Binance.Session as BinanceSession
use exchange_data_importer.Exchanges.Bybit.Session as BybitSession
use exchange_data_importer.Exchanges.Okx.Session as OkxSession
use exchange_data_importer.Bootstrap.Exchange.{Exchange, binance, bybit, okx}

-- What the connections of each client give so far, how many liquidations the importer takes before the
-- context ends, and how many errors it takes before each send of one.
pub record Connections (F : Type 0) : Type 0 where
  pub parse_float : String → Result F
  pub parse_int : String → Result ℤ
  pub binance_attempts : List (Attempt BinanceSession.Message)
  pub bybit_attempts : List (Attempt BybitSession.Message)
  pub okx_attempts : List (Attempt OkxSession.Message)
  pub room : ℕ
  pub drained : List ℕ

module _ {F : Type 0} where
  -- The two channels as `SubscribeLiquidations` makes them.
  abbrev pub new_channels : Connections F → Channels F
  new_channels w = record { out = []; errs = []; room = w.room; backlog = empty_backlog w.drained }

module _ {F : Type 0} ⦃f : Float F⦄ where
  -- `SubscribeLiquidations`, whose channels are never nil: its goroutine, and `none` where that panics.
  unfoldable pub subscribe_liquidations : Exchange → Connections F → Option (Channels F × Stage)
  unfolding BinanceSession.handle_liquidation_subscription
      BybitSession.handle_liquidation_subscription OkxSession.handle_liquidation_subscription
  subscribe_liquidations (binance x) w =
      BinanceSession.handle_liquidation_subscription w.parse_float w.binance_attempts
        (new_channels w)
  subscribe_liquidations (bybit x) w =
      BybitSession.handle_liquidation_subscription w.parse_float w.bybit_attempts (new_channels w)
  subscribe_liquidations (okx x) w =
      OkxSession.handle_liquidation_subscription w.parse_float w.parse_int w.okx_attempts
        (new_channels w)
