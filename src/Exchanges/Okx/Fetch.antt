-- ===== src/Exchanges/Okx/Fetch.antt =====
-- internal/infrastructure/exchanges/okx/client.go: FetchTickers, and the names that it leaves for the
-- subscription.
use exchange_data_importer.Prelude.{String, List}
use exchange_data_importer.Prelude.Int.{ℤ}
use exchange_data_importer.Float.{Float}
use exchange_data_importer.Time.{Time}
use exchange_data_importer.Errors.{Result, ok, err}
use exchange_data_importer.Exchanges.{ExchangeTicker}
use exchange_data_importer.Exchanges.Http.{Answer, response_of}
use exchange_data_importer.Exchanges.Okx.{TickersInfo, TickerResponse, fetched}

module _ {F : Type 0} ⦃f : Float F⦄ (parse_float : String → Result F)
    (parse_int : String → Result ℤ) where
  -- `FetchTickers`: the names that the client keeps, and the tickers or the error.
  unfoldable pub fetch_tickers :
      Answer TickerResponse → Time → TickersInfo → TickersInfo × Result (List (ExchangeTicker F))
  unfolding response_of fetched
  fetch_tickers answer now info = elim (response_of answer) [
    | err e ↦ (info, err e)
    | ok response ↦
        let (info', tickers) = fetched parse_float parse_int info response now in
        (info', ok tickers)
  ]
