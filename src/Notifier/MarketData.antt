-- ===== src/Notifier/MarketData.antt =====
-- internal/notifier/strategies/market_data.go.
use exchange_data_importer.Prelude.{ℕ, String, Option, none, some, List, [], ◌∷◌, get_elem?, lookup}
use exchange_data_importer.Prelude.Partial.{◌>>=◌}
use exchange_data_importer.Errors.{errorf, Result, ok, err}
use exchange_data_importer.Domain.Ticker.{Ticker, Tick, Heap}

-- `TickerNotification`: values, not pointers.
pub record TickerNotification (F : Type 0) : Type 0 where
  pub tick : Tick F
  pub ticker : Ticker F

module _ {F : Type 0} where
  -- `newTickerNotification`; the outer `none` is a panic.
  unfoldable pub new_ticker_notification :
      Heap F → Option (Tick F) → String → Option (Result (TickerNotification F))
  new_ticker_notification h none symbol = some (err (errorf "tick cannot be nil"))
  new_ticker_notification h (some tick) symbol = elim (lookup symbol tick.data_) [
    | none ↦ some (err (errorf "ticker not found in tick data"))
    | some p ↦ do
      t ← get_elem? h p
      some (ok (record { tick = record tick { data_ = [] }; ticker = t }))
  ]

  -- The loop of `Format` over the symbols of the tick.
  unfoldable pub notifications :
      Heap F → Tick F → List (String × ℕ) → Option (List (TickerNotification F))
  unfolding new_ticker_notification
  notifications h tick [] = some []
  notifications h tick ((symbol, _) ∷ rest) = do
    n ← new_ticker_notification h (some tick) symbol
    events ← notifications h tick rest
    some (elim n [ ok v ↦ v ∷ events | err e ↦ events ])

  -- `Format`: the events' data. A nil tick, or data that is no tick, is `none`.
  unfoldable pub format : Heap F → Option (Tick F) → Option (List (TickerNotification F))
  unfolding notifications
  format h none = some []
  format h (some tick) = notifications h tick tick.data_
