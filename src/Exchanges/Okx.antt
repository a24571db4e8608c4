-- ===== src/Exchanges/Okx.antt =====
-- internal/infrastructure/exchanges/okx: domain.go and the message handling of client.go.
-- strconv.ParseFloat, strconv.ParseInt and the JSON decoder are parameters: what they return.
pub mod Safety
pub mod Session
pub mod Fetch
pub mod Stored
use Prim.Native.Char.{code}
use exchange_data_importer.Prelude.{
  ℕ, ◌+◌, ◌*◌, ◌^◌, String, Bool, true, false, ◌&&◌, ◌||◌, not, Option, none, some, List, [], ◌∷◌,
  map, str_eq, leb, ◌==◌, if◌then◌else◌, length,
}
use exchange_data_importer.Prelude.Int.{ℤ, pos, ltb_ℤ}
use exchange_data_importer.Float.{Float}
use exchange_data_importer.Time.{Time, unix_ms, sub_time}
use exchange_data_importer.Errors.{Error, errorf, wrapped, Result, ok, err, ◌>>=◌}
use exchange_data_importer.Exchanges.{ExchangeTicker, ExchangeLiquidation}
use exchange_data_importer.Exchanges.Channels.{Channels, send_error, send_liquidation}

pub record TickerDto : Type 0 where
  pub inst_id : String
  pub last_price : String
  pub bid_price : String
  pub bid_quantity : String
  pub ask_price : String
  pub ask_quantity : String
  pub timestamp : String

pub record TickerResponse : Type 0 where
  pub code : String
  pub msg : String
  pub list : List TickerDto

pub record Detail : Type 0 where
  pub side : String
  pub quantity : String
  pub timestamp : String
  pub price : String

pub record LiquidationDto : Type 0 where
  pub details : List Detail
  pub inst_id : String

pub record LiquidationEvent : Type 0 where
  pub channel : String
  pub inst_type : String
  pub list : List LiquidationDto

-- `tickersInfo` of the client.
pub record TickersInfo : Type 0 where
  pub available_tickers : List String
  pub updated_at : Time

abbrev pub default_tickers_update_interval : ℕ
default_tickers_update_interval = 5 * (60 * 10 ^ 9)

-- `setAvailableTickers`.
unfoldable pub set_available_tickers : List String → Time → TickersInfo
set_available_tickers tickers now = record { available_tickers = tickers; updated_at = now }

-- The refresh of the names in `FetchTickers`: when there are none, or after five minutes.
unfoldable pub refresh_tickers : TickersInfo → List String → Time → TickersInfo
unfolding set_available_tickers
refresh_tickers info names now =
    if length info.available_tickers == 0
      || ltb_ℤ (pos default_tickers_update_interval) (sub_time now info.updated_at)
    then set_available_tickers names now
    else info

-- The characters of a text in lower case. No letter beyond ASCII has a lower case among those of
-- "buy" and "sell", which is all that the result is compared with.
abbrev pub lower_code : ℕ → ℕ
lower_code c = if leb b'A' c && leb c b'Z' then c + 32 else c

abbrev pub lower_codes : String → List ℕ
lower_codes String.[] = []
lower_codes (String.◌∷◌ c s) = lower_code (code c) ∷ lower_codes s

abbrev pub same_codes : List ℕ → List ℕ → Bool
same_codes [] [] = true
same_codes (a ∷ as_) (b ∷ bs) = (a == b) && same_codes as_ bs
same_codes _ _ = false

-- The switch on `strings.ToLower(side)`.
unfoldable pub side_of : String → Option String
side_of side =
    if same_codes (lower_codes side) (lower_codes "buy")
    then some "BUY"
    else if same_codes (lower_codes side) (lower_codes "sell")
    then some "SELL"
    else none

module _ {F : Type 0} ⦃f : Float F⦄ (parse_float : String → Result F)
    (parse_int : String → Result ℤ) where
  abbrev pub field_of {ℓ} : {A : Type ℓ} → (String → Result A) → String → String → Result A
  field_of parse format text = elim (parse text) [ ok x ↦ ok x | err e ↦ err (wrapped format e) ]

  -- `(ot TickerDTO) toTicker`.
  unfoldable pub to_ticker : TickerDto → Result (ExchangeTicker F)
  to_ticker ot = do
    bid_price ← field_of parse_float "invalid bidPrice '%s': %w" ot.bid_price
    ask_price ← field_of parse_float "invalid askPrice '%s': %w" ot.ask_price
    bid_quantity ← field_of parse_float "invalid bidQuantity '%s': %w" ot.bid_quantity
    ask_quantity ← field_of parse_float "invalid askQuantity '%s': %w" ot.ask_quantity
    ts ← field_of parse_int "invalid timestamp '%s': %w" ot.timestamp
    ok (record {
      symbol = ot.inst_id;
      ask_price = ask_price;
      bid_price = bid_price;
      ask_quantity = ask_quantity;
      bid_quantity = bid_quantity;
      event_at = unix_ms ts;
    })

  -- `convertTickers`: a ticker that does not convert is left out.
  unfoldable pub convert_tickers : List TickerDto → List (ExchangeTicker F)
  unfolding to_ticker
  convert_tickers [] = []
  convert_tickers (ot ∷ rest) =
      let tickers = convert_tickers rest in
      elim (to_ticker ot) [ ok t ↦ t ∷ tickers | err e ↦ tickers ]

  -- `FetchTickers` once the response is decoded: the names it keeps and the tickers it returns.
  unfoldable pub fetched :
      TickersInfo → TickerResponse → Time → TickersInfo × List (ExchangeTicker F)
  unfolding refresh_tickers convert_tickers
  fetched info response now =
      (refresh_tickers info (map (λ t. t.inst_id) response.list) now, convert_tickers response.list)

  -- `toLiquidation` of the first detail.
  unfoldable pub first_detail : String → Detail → Result (ExchangeLiquidation F)
  unfolding side_of
  first_detail inst_id d = do
    price ← field_of parse_float "invalid price '%s': %w" d.price
    quantity ← field_of parse_float "invalid quantity '%s': %w" d.quantity
    ts ← field_of parse_int "invalid timestamp '%s': %w" d.timestamp
    elim (side_of d.side) [
      | none ↦ err (errorf "invalid side '%s'")
      | some side ↦ ok (record {
        symbol = inst_id;
        side = side;
        price = price;
        quantity = quantity;
        total_price = f.mul price quantity;
        event_at = unix_ms ts;
      })
    ]

  -- `(ol LiquidationDTO) toLiquidation`: `none` is the panic of `ol.Details[0]`.
  unfoldable pub to_liquidation : LiquidationDto → Option (Result (ExchangeLiquidation F))
  unfolding first_detail
  to_liquidation ol = elim ol.details [ [] ↦ none | d ∷ _ ↦ some (first_detail ol.inst_id d) ]

  -- The loop of `processMessage`.
  unfoldable pub send_all : List LiquidationDto → Channels F → Option (Channels F × Option Error)
  unfolding to_liquidation send_error send_liquidation
  send_all [] c = some (c, none)
  send_all (d ∷ rest) c = elim (to_liquidation d) [
    | none ↦ none
    | some (err e) ↦ send_all rest (send_error c e)
    | some (ok l) ↦
        let (c', stop) = send_liquidation c l in
        elim stop [ some e ↦ some (c', some e) | none ↦ send_all rest c' ]
  ]

  -- `processMessage`, given what the decoder made of the message.
  unfoldable pub process_message :
      Result LiquidationEvent → Channels F → Option (Channels F × Option Error)
  unfolding send_all
  process_message (err e) c = some (send_error c e, some e)
  process_message (ok event) c =
      if not (str_eq event.channel "liquidation-orders")
      then some (c, none)
      else if length event.list == 0
      then some (c, none)
      else send_all event.list c
