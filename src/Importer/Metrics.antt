-- ===== src/Importer/Metrics.antt =====
-- internal/importer/process_tick.go and telemetry.go: the spans, timings, gauges and counters of one
-- round of the import. The durations that the clock measures are parameters.
pub mod Spans
use exchange_data_importer.Prelude.{ℕ, String, true, List, [], ◌++◌, length}
use exchange_data_importer.Prelude.Int.{ℤ, pos}
use exchange_data_importer.Float.{Float}
use exchange_data_importer.Errors.{Error, Result, ok, err}
use exchange_data_importer.Exchanges.{ExchangeTicker}
use exchange_data_importer.Telemetry.{Call, text_value, bool_value, int_value, set_tag, finish}
use exchange_data_importer.Telemetry.Provider.{
  Provider, provider_start_span, provider_increment_counter, provider_gauge, provider_timing,
}

-- The names of telemetry.go.
abbrev pub telemetry_liquidations_errors : String
telemetry_liquidations_errors = "liquidations.errors"

abbrev pub telemetry_tick_fetch_errors : String
telemetry_tick_fetch_errors = "tick.fetch.errors"

abbrev pub telemetry_tick_fetch_duration : String
telemetry_tick_fetch_duration = "tick.fetch.duration"

abbrev pub telemetry_tick_build_set_liquidations : String
telemetry_tick_build_set_liquidations = "tick.build.set_tick_liquidations"

abbrev pub telemetry_tick_calculate_indicators : String
telemetry_tick_calculate_indicators = "tick.calculate_indicators.duration"

abbrev pub telemetry_tick_fetch_tickers_count : String
telemetry_tick_fetch_tickers_count = "tick.fetch.tickers_count"

abbrev pub telemetry_tick_build_tickers_processed : String
telemetry_tick_build_tickers_processed = "tick.build.tickers_processed"

abbrev pub telemetry_span_import_tick : String
telemetry_span_import_tick = "importTick"

abbrev pub telemetry_span_fetch_tickers : String
telemetry_span_fetch_tickers = "fetchTickers"

abbrev pub telemetry_span_build_tick : String
telemetry_span_build_tick = "buildTick"

-- The durations of the fetch, of reading the liquidations and of the indicators.
pub record Durations : Type 0 where
  pub fetch : ℤ
  pub liquidations : ℤ
  pub calculation : ℤ

module _ {F : Type 0} ⦃f : Float F⦄ where
  -- A number of things, as the gauges take it.
  abbrev pub float_of : ℕ → F
  float_of n = f.lit (pos n)

  -- `fetchTickers`, by the exchange's answer; with an error it has no tickers. `error_text` is the
  -- text of an error.
  unfoldable pub fetch_calls :
      (Error → String) → Provider → Durations → Result (List (ExchangeTicker F)) → List (Call F)
  unfolding provider_start_span provider_increment_counter provider_gauge provider_timing set_tag
      finish
  fetch_calls error_text p d fetched =
      let (span, started) = provider_start_span {F = F} p telemetry_span_fetch_tickers in
      let timed = provider_timing p telemetry_tick_fetch_duration d.fetch [] in
      elim fetched [
        | err e ↦
            started
            ++ (timed
                ++ (provider_gauge p telemetry_tick_fetch_tickers_count (float_of 0) []
                    ++ (set_tag span "error" (bool_value true)
                        ++ (set_tag span "error.message" (text_value (error_text e))
                            ++ (provider_increment_counter p telemetry_tick_fetch_errors (pos 1) []
                                ++ finish span)))))
        | ok tickers ↦
            started
            ++ (timed
                ++ (provider_gauge p telemetry_tick_fetch_tickers_count (float_of (length tickers))
                      []
                    ++ (set_tag span "tickers.count" (int_value (length tickers)) ++ finish span)))
      ]

  -- `buildTick`, by the number of tickers that the workers built.
  unfoldable pub build_calls : Provider → Durations → ℕ → List (Call F)
  unfolding provider_start_span provider_gauge provider_timing finish
  build_calls p d processed =
      let (span, started) = provider_start_span {F = F} p telemetry_span_build_tick in
      started
      ++ (provider_timing p telemetry_tick_build_set_liquidations d.liquidations []
          ++ (provider_gauge p telemetry_tick_build_tickers_processed (float_of processed) []
              ++ (provider_timing p telemetry_tick_calculate_indicators d.calculation []
                  ++ finish span)))

  -- `importTick`: with no tickers fetched it builds nothing.
  unfoldable pub import_calls :
      (Error → String) → Provider → Durations → Result (List (ExchangeTicker F)) → ℕ → List (Call F)
  unfolding fetch_calls build_calls provider_start_span finish
  import_calls error_text p d fetched processed =
      let (span, started) = provider_start_span {F = F} p telemetry_span_import_tick in
      started
      ++ (fetch_calls error_text p d fetched
          ++ (elim fetched [ err e ↦ [] | ok tickers ↦ build_calls p d processed ] ++ finish span))
