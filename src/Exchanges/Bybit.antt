-- ===== src/Exchanges/Bybit.antt =====
-- internal/infrastructure/exchanges/bybit: domain.go and the message handling of client.go.
-- strconv.ParseFloat and the JSON decoder are parameters: what they return.
pub mod Converted
pub mod Session
pub mod Fetch
pub mod Stored
use exchange_data_importer.Prelude.{
  ℕ, ◌*◌, ◌^◌, String, ◌||◌, not, Option, none, some, List, [], ◌∷◌, map, str_eq, str_append,
  starts_with, ◌==◌, if◌then◌else◌, length,
}
use exchange_data_importer.Prelude.Int.{ℤ, pos, ltb_ℤ}
use exchange_data_importer.Float.{Float}
use exchange_data_importer.Time.{Time, unix_ms, zero_time, sub_time}
use exchange_data_importer.Errors.{Error, errorf, wrapped, Result, ok, err, ◌>>=◌}
use exchange_data_importer.Exchanges.{ExchangeTicker, ExchangeLiquidation}
use exchange_data_importer.Exchanges.Channels.{Channels, send_error, send_result}

pub record TickerDto : Type 0 where
  pub symbol : String
  pub bid_price : String
  pub bid_quantity : String
  pub ask_price : String
  pub ask_quantity : String
  pub last_price : String

pub record TickerResponse : Type 0 where
  pub ret_code : ℤ
  pub ret_msg : String
  pub category : String
  pub list : List TickerDto
  pub time : ℤ

pub record LiquidationDto : Type 0 where
  pub symbol : String
  pub side : String
  pub price : String
  pub quantity : String
  pub updated_time : ℤ

pub record LiquidationEvent : Type 0 where
  pub topic : String
  pub kind : String
  pub body : LiquidationDto
  pub ts : ℤ

-- `tickersInfo` of the client.
pub record TickersInfo : Type 0 where
  pub available_tickers : List String
  pub updated_at : Time

abbrev pub default_tickers_update_interval : ℕ
default_tickers_update_interval = 5 * (60 * 10 ^ 9)

-- The side that a position's side turns into: a liquidated long is sold.
unfoldable pub side_of : String → Option String
side_of side =
    if str_eq side "Buy" then some "SELL" else if str_eq side "Sell" then some "BUY" else none

-- `setAvailableTickers`.
unfoldable pub set_available_tickers : List String → Time → TickersInfo
set_available_tickers tickers now = record { available_tickers = tickers; updated_at = now }

-- The refresh of the names in `FetchTickers`: when there are none, or after five minutes.
unfoldable pub refresh_tickers : TickersInfo → List String → Time → TickersInfo
unfolding set_available_tickers
refresh_tickers info symbols now =
    if length info.available_tickers == 0
      || ltb_ℤ (pos default_tickers_update_interval) (sub_time now info.updated_at)
    then set_available_tickers symbols now
    else info

-- The topics of the subscription in `connectAndHandle`; none is sent while no ticker is known.
unfoldable pub topics_of : List String → List String
topics_of available_tickers = map (λ ticker. str_append "liquidation." ticker) available_tickers

module _ {F : Type 0} ⦃f : Float F⦄ (parse_float : String → Result F) where
  -- `strconv.ParseFloat` with its error wrapped.
  abbrev pub field_of : String → String → Result F
  field_of format text = elim (parse_float text) [ ok x ↦ ok x | err e ↦ err (wrapped format e) ]

  -- `(bt TickerDTO) toTicker`. `EventAt` is left at the zero Time.
  unfoldable pub to_ticker : TickerDto → Result (ExchangeTicker F)
  to_ticker bt = do
    bid_price ← field_of "invalid bidPrice '%s': %w" bt.bid_price
    ask_price ← field_of "invalid askPrice '%s': %w" bt.ask_price
    bid_quantity ← field_of "invalid bidQuantity '%s': %w" bt.bid_quantity
    ask_quantity ← field_of "invalid askQuantity '%s': %w" bt.ask_quantity
    ok (record {
      symbol = bt.symbol;
      ask_price = ask_price;
      bid_price = bid_price;
      ask_quantity = ask_quantity;
      bid_quantity = bid_quantity;
      event_at = zero_time;
    })

  -- `convertTickers`: a ticker that does not convert is left out.
  unfoldable pub convert_tickers : List TickerDto → Time → List (ExchangeTicker F)
  unfolding to_ticker
  convert_tickers [] event_at = []
  convert_tickers (bt ∷ rest) event_at =
      let tickers = convert_tickers rest event_at in
      elim (to_ticker bt) [ ok t ↦ record t { event_at = event_at } ∷ tickers | err e ↦ tickers ]

  -- `FetchTickers` once the response is decoded: the names it keeps and the tickers it returns.
  unfoldable pub fetched :
      TickersInfo → TickerResponse → Time → TickersInfo × List (ExchangeTicker F)
  unfolding refresh_tickers convert_tickers
  fetched info response now = (
    refresh_tickers info (map (λ t. t.symbol) response.list) now,
    convert_tickers response.list (unix_ms response.time),
  )

  -- `(bl LiquidationDTO) toLiquidation`.
  unfoldable pub to_liquidation : LiquidationDto → Result (ExchangeLiquidation F)
  unfolding side_of
  to_liquidation bl = do
    price ← field_of "invalid price '%s': %w" bl.price
    quantity ← field_of "invalid quantity '%s': %w" bl.quantity
    elim (side_of bl.side) [
      | none ↦ err (errorf "invalid side '%s'")
      | some side ↦ ok (record {
        symbol = bl.symbol;
        side = side;
        price = price;
        quantity = quantity;
        total_price = f.mul price quantity;
        event_at = unix_ms bl.updated_time;
      })
    ]

  -- `processMessage`, given what the decoder made of the message.
  unfoldable pub process_message : Result LiquidationEvent → Channels F → Channels F × Option Error
  unfolding send_result to_liquidation
  process_message (err e) c = (send_error c e, some e)
  process_message (ok event) c =
      if not (starts_with event.topic "liquidation")
      then (c, none)
      else send_result c (to_liquidation event.body)
