-- ===== src/Tests/Markets.antt =====
-- The filter of Binance's tickers by its table of markets, on concrete inputs.
use exchange_data_importer.Prelude.{String, ◌≡◌, refl, [], ◌∷◌, length}
use exchange_data_importer.Prelude.Int.{pos}
use exchange_data_importer.Errors.{ok}
use exchange_data_importer.Exchanges.Binance.{TickerDto, filter_tickers}
use exchange_data_importer.Exchanges.Binance.MarketData.{market_data_symbols}

length-market_data_symbols : length market_data_symbols ≡ 216
length-market_data_symbols = refl

abbrev quoted : String → TickerDto
quoted symbol = record {
  symbol = symbol;
  bid_price = "1";
  bid_quantity = "1";
  ask_price = "1";
  ask_quantity = "1";
  time = pos 1;
  last_updated = pos 1;
}

allowed_kept :
    filter_tickers (ok market_data_symbols) (quoted "NONEUSDT" ∷ quoted "NKNUSDT" ∷ [])
    ≡ ok (quoted "NKNUSDT" ∷ [])
unfolding filter_tickers
allowed_kept = refl
