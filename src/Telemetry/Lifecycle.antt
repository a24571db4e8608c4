-- ===== src/Telemetry/Lifecycle.antt =====
-- internal/infrastructure/telemetry/datadog.go: what is started is what is stopped.
use exchange_data_importer.Prelude.{String, ◌≡◌, none, List, [], ◌∷◌, map, arith, if◌then◌else◌}
use exchange_data_importer.Prelude.Int.{ℤ}
use exchange_data_importer.Telemetry.{
  DatadogConfig, DatadogProvider, Call, tracer_start, statsd_new, profiler_start, tracer_stop,
  statsd_close, profiler_stop, count, gauge, timing, Outside, new_datadog_provider, client_of,
  initialize, shutdown, increment_counter, set_gauge, record_timing,
}

module _ {F : Type 0} where
  -- The call that undoes a start.
  abbrev pub stop_of : Call F → Call F
  stop_of (tracer_start name env address) = tracer_stop
  stop_of (statsd_new c) = statsd_close c
  stop_of (profiler_start name env tags address) = profiler_stop
  stop_of call = call

  -- A provider that is ready, and what started it.
  pub record IsReady (config : DatadogConfig) (calls : List (Call F)) (dp : DatadogProvider)
      : Type 0 where
    pub once : (again : Outside) → initialize {F = F} again dp ≡ (dp, [], none)
    pub stops : shutdown dp ≡ map stop_of calls
    pub counts :
        (name : String) (n : ℤ) (tags : List String)
        → increment_counter {F = F} dp name n tags
          ≡ (if config.enable_metrics then count (client_of config) name n tags ∷ [] else [])
    pub gauges :
        (name : String) (x : F) (tags : List String)
        → set_gauge dp name x tags
          ≡ (if config.enable_metrics then gauge (client_of config) name x tags ∷ [] else [])
    pub timings :
        (name : String) (d : ℤ) (tags : List String)
        → record_timing {F = F} dp name d tags
          ≡ (if config.enable_metrics then timing (client_of config) name d tags ∷ [] else [])

  -- A new provider whose `Initialize` returned no error is ready: a second `Initialize` starts
  -- nothing again; `Shutdown` stops exactly what was started, in the same order; and each counter,
  -- gauge and timing goes, if metrics are enabled, by one call with its name, value and tags to the
  -- client made for the configuration's host and tags, and is dropped if they are not.
  pub initialize-IsReady :
      (w : Outside) (config : DatadogConfig) (dp : DatadogProvider) (calls : List (Call F))
      → initialize w (new_datadog_provider config) ≡ (dp, calls, none)
      → IsReady config calls dp
  unfolding initialize new_datadog_provider shutdown increment_counter set_gauge record_timing
  initialize-IsReady w config dp calls h = record {
    once = λ again. ground arith;
    stops = ground arith;
    counts = λ name n tags. ground arith;
    gauges = λ name x tags. ground arith;
    timings = λ name d tags. ground arith;
  }
