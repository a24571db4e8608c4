-- ===== src/Exchanges/Binance/Fetch.antt =====
-- internal/infrastructure/exchanges/binance/client.go: FetchTickers.
use exchange_data_importer.Prelude.{String, List}
use exchange_data_importer.Float.{Float}
use exchange_data_importer.Errors.{Result, ok, err}
use exchange_data_importer.Exchanges.{ExchangeTicker}
use exchange_data_importer.Exchanges.Http.{Answer, response_of}
use exchange_data_importer.Exchanges.Binance.{TickerDto, fetched}

module _ {F : Type 0} ⦃f : Float F⦄ (parse_float : String → Result F) where
  -- `FetchTickers`; `allowed` is the decoded market data.
  unfoldable pub fetch_tickers :
      Result (List String) → Answer (List TickerDto) → Result (List (ExchangeTicker F))
  unfolding response_of fetched
  fetch_tickers allowed answer = elim (response_of answer) [
    | err e ↦ err e
    | ok tickers ↦ fetched parse_float allowed tickers
  ]
