-- ===== src/Tests/Data.antt =====
-- Concrete data for the tests.
use exchange_data_importer.Prelude.{ℕ, ◌+◌, ◌*◌, ◌^◌, String, List}
use exchange_data_importer.Prelude.Int.{ℤ, pos}
use exchange_data_importer.Time.{Time, zero_time}
use exchange_data_importer.Domain.Order.{Order}
use exchange_data_importer.Domain.Liquidation.{Liquidation}
use exchange_data_importer.Domain.Ticker.{Ticker, Tick}
use exchange_data_importer.Exchanges.{ExchangeLiquidation}

-- A time in whole seconds of the year 1, in minute `m`.
abbrev pub clock : ℕ → ℕ → Time
clock m s = zero_time + m * (60 * 10 ^ 9) + s * 10 ^ 9

abbrev pub ticker_of : String → Time → ℤ → ℤ → Ticker ℤ
ticker_of symbol time ask bid = record {
  symbol = symbol;
  event_at = time;
  created_at = time;
  ask = ask;
  bid = bid;
  rsi20 = pos 0;
  ask_change = pos 0;
  bid_change = pos 0;
  change_1m = pos 0;
  change_20m = pos 0;
  max = ask;
  min = ask;
  max10 = pos 0;
  min10 = pos 0;
  max10_diff = pos 0;
  min10_diff = pos 0;
}

abbrev pub tick_of : Time → ℤ → List (String × ℕ) → Tick ℤ
tick_of time change data_ = record {
  start_at = time;
  fetched_at = time;
  created_at = time;
  fetch_duration = pos 0;
  handling_duration = pos 0;
  avg_buy10 = pos 0;
  ll1 = 0;
  ll2 = 0;
  ll5 = 0;
  ll60 = 0;
  sl1 = 0;
  sl2 = 0;
  sl10 = 0;
  avg = record {
    change_1m = change;
    change_20m = pos 0;
    max10 = pos 0;
    min10 = pos 0;
    ask_change = pos 0;
    bid_change = pos 0;
    tickers_count = pos 0;
  };
  data_ = data_;
}

abbrev pub order_of : String → Time → Order ℤ
order_of side time = record {
  event_at = time;
  symbol = "BTCUSDT";
  side = side;
  price = pos 20;
  quantity = pos 3;
  total_price = pos 60;
}

abbrev pub liquidation_of : String → Time → Liquidation ℤ
liquidation_of side time = record { order = order_of side time; event_at = time; stored_at = time }

abbrev pub sold : Time → ExchangeLiquidation ℤ
sold time = record {
  symbol = "BTCUSDT";
  side = "SELL";
  price = pos 20;
  quantity = pos 3;
  total_price = pos 60;
  event_at = time;
}
