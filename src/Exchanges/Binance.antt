-- ===== src/Exchanges/Binance.antt =====
-- internal/infrastructure/exchanges/binance: domain.go, market_filter.go and the message handling of
-- client.go. strconv.ParseFloat and the JSON decoder are parameters: what they return.
pub mod MarketData
pub mod Session
pub mod Fetch
use exchange_data_importer.Prelude.{String, Option, some, List, [], ◌∷◌, str_eq, keep, any_of}
use exchange_data_importer.Prelude.Int.{ℤ}
use exchange_data_importer.Float.{Float}
use exchange_data_importer.Time.{unix_ms}
use exchange_data_importer.Errors.{Error, wrapped, Result, ok, err, ◌>>=◌}
use exchange_data_importer.Exchanges.{ExchangeTicker, ExchangeLiquidation}
use exchange_data_importer.Exchanges.Channels.{Channels, send_error, send_result}

pub record TickerDto : Type 0 where
  pub symbol : String
  pub bid_price : String
  pub bid_quantity : String
  pub ask_price : String
  pub ask_quantity : String
  pub time : ℤ
  pub last_updated : ℤ

pub record OrderData : Type 0 where
  pub symbol : String
  pub side : String
  pub order_type : String
  pub time_in_force : String
  pub orig_quantity : String
  pub price : String
  pub average_price : String
  pub order_status : String
  pub last_quantity : String
  pub time : ℤ

pub record LiquidationDto : Type 0 where
  pub event_type : String
  pub event_time : ℤ
  pub order_data : OrderData

-- `FilterTickers`: the tickers whose symbols are keys of the decoded market data. Only the keys of
-- `AllowedSymbolsMap` are read.
unfoldable pub keep_allowed : List String → List TickerDto → List TickerDto
keep_allowed allowed tickers = keep (λ t. any_of (str_eq t.symbol) allowed) tickers

unfoldable pub filter_tickers : Result (List String) → List TickerDto → Result (List TickerDto)
unfolding keep_allowed
filter_tickers (err e) tickers = err e
filter_tickers (ok allowed) tickers = ok (keep_allowed allowed tickers)

module _ {F : Type 0} ⦃f : Float F⦄ (parse_float : String → Result F) where
  abbrev field_of : String → String → Result F
  field_of format text = elim (parse_float text) [ ok x ↦ ok x | err e ↦ err (wrapped format e) ]

  -- `(bt TickerDTO) toTicker`.
  unfoldable pub to_ticker : TickerDto → Result (ExchangeTicker F)
  to_ticker bt = do
    bid_price ← field_of "invalid bidPrice '%s': %w" bt.bid_price
    ask_price ← field_of "invalid askPrice '%s': %w" bt.ask_price
    bid_quantity ← field_of "invalid bidQuantity '%s': %w" bt.bid_quantity
    ask_quantity ← field_of "invalid askQuantity '%s': %w" bt.ask_quantity
    ok (record {
      symbol = bt.symbol;
      ask_price = ask_price;
      bid_price = bid_price;
      ask_quantity = ask_quantity;
      bid_quantity = bid_quantity;
      event_at = unix_ms bt.time;
    })

  -- `convertTickers`: a ticker that does not convert is left out.
  unfoldable pub convert_tickers : List TickerDto → List (ExchangeTicker F)
  unfolding to_ticker
  convert_tickers [] = []
  convert_tickers (bt ∷ rest) =
      let tickers = convert_tickers rest in
      elim (to_ticker bt) [ ok t ↦ t ∷ tickers | err e ↦ tickers ]

  -- `FetchTickers` once the response is decoded; `allowed` is the decoded market data.
  unfoldable pub fetched : Result (List String) → List TickerDto → Result (List (ExchangeTicker F))
  unfolding filter_tickers convert_tickers
  fetched allowed tickers = elim (filter_tickers allowed tickers) [
    | err e ↦ err (wrapped "validating market data: %w" e)
    | ok filtered ↦ ok (convert_tickers filtered)
  ]

  -- `(bl LiquidationDTO) toLiquidation`.
  unfoldable pub to_liquidation : LiquidationDto → Result (ExchangeLiquidation F)
  to_liquidation bl = do
    price ← field_of "invalid price '%s': %w" bl.order_data.price
    quantity ← field_of "invalid quantity '%s': %w" bl.order_data.orig_quantity
    ok (record {
      symbol = bl.order_data.symbol;
      side = bl.order_data.side;
      price = price;
      quantity = quantity;
      total_price = f.mul price quantity;
      event_at = unix_ms bl.event_time;
    })

  -- `processMessage`, given what the decoder made of the message.
  unfoldable pub process_message : Result LiquidationDto → Channels F → Channels F × Option Error
  unfolding send_result to_liquidation
  process_message (err e) c = (send_error c e, some e)
  process_message (ok event) c = send_result c (to_liquidation event)
