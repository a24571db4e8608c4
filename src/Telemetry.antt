-- ===== src/Telemetry.antt =====
-- internal/infrastructure/telemetry/datadog.go: the provider for Datadog. The libraries for tracing,
-- metrics and profiling are outside: what is modelled are the calls of them, in order, and what
-- starting them gave. Their errors on a metric or a close are only printed.
pub mod Lifecycle
pub mod Component
pub mod Provider
use Prim.Native.Char.{Char, code}
use exchange_data_importer.Prelude.{
  ℕ, String, Bool, true, false, not, Option, none, some, List, [], ◌∷◌, ◌++◌, str_eq, str_append,
  ◌==◌, if◌then◌else◌, to_chars, of_chars,
}
use exchange_data_importer.Prelude.Int.{ℤ}
use exchange_data_importer.Errors.{Error, wrapped}

pub record DatadogConfig : Type 0 where
  pub agent_host : String
  pub agent_port : String
  pub service_name : String
  pub service_env : String
  pub tags : List String
  pub enable_tracing : Bool
  pub enable_metrics : Bool
  pub enable_profiling : Bool

-- A client of the metrics: the address and the tags that it was made with.
pub record StatsdClient : Type 0 where
  pub address : String
  pub tags : List String

-- The value of a tag.
pub data TagValue : Type 0 where
  text_value : String → TagValue
  bool_value : Bool → TagValue
  int_value : ℕ → TagValue

-- The calls of the three libraries.
pub data Call (F : Type 0) : Type 0 where
  tracer_start : String → String → String → Call F
  statsd_new : StatsdClient → Call F
  profiler_start : String → String → List String → String → Call F
  tracer_stop : Call F
  statsd_close : StatsdClient → Call F
  profiler_stop : Call F
  span_start : String → Call F
  span_set_tag : String → String → TagValue → Call F
  span_finish : String → Call F
  count : StatsdClient → String → ℤ → List String → Call F
  gauge : StatsdClient → String → F → List String → Call F
  timing : StatsdClient → String → ℤ → List String → Call F

-- What starting the metrics and the profiler gave.
pub record Outside : Type 0 where
  pub statsd : Option Error
  pub profiler : Option Error

pub record DatadogProvider : Type 0 where
  pub config : DatadogConfig
  pub statsd : Option StatsdClient
  pub initialized : Bool

-- `NewDatadogProvider`.
unfoldable pub new_datadog_provider : DatadogConfig → DatadogProvider
new_datadog_provider config = record { config = config; statsd = none; initialized = false }

-- `fmt.Sprintf("%s:%s", …)`.
abbrev pub host_port : String → String → String
host_port host port = str_append host (str_append ":" port)

abbrev pub client_of : DatadogConfig → StatsdClient
client_of c = record { address = host_port c.agent_host "8125"; tags = c.tags }

-- The client that the metrics go to: none where they are not enabled or it is nil.
abbrev pub active : DatadogProvider → Option StatsdClient
active dp = if dp.config.enable_metrics then dp.statsd else none

module _ {F : Type 0} where
  abbrev pub start_of_tracer : DatadogConfig → Call F
  start_of_tracer c =
      tracer_start c.service_name c.service_env (host_port c.agent_host c.agent_port)

  abbrev pub start_of_profiler : DatadogConfig → Call F
  start_of_profiler c =
      profiler_start c.service_name c.service_env c.tags (host_port c.agent_host c.agent_port)

  -- The end of `Initialize`, after the calls made so far: the profiler.
  unfoldable pub start_profiling :
      Outside → DatadogProvider → List (Call F) → DatadogProvider × List (Call F) × Option Error
  start_profiling w dp calls =
      if dp.config.enable_profiling
      then elim w.profiler [
        | some e ↦ (
          dp,
          calls ++ start_of_profiler dp.config ∷ [],
          some (wrapped "failed to initialize profiler: %w" e),
        )
        | none ↦ (record dp { initialized = true }, calls ++ start_of_profiler dp.config ∷ [], none)
      ]
      else (record dp { initialized = true }, calls, none)

  -- The part before it: the client of the metrics, which is nil where it could not be made.
  unfoldable pub start_metrics :
      Outside → DatadogProvider → List (Call F) → DatadogProvider × List (Call F) × Option Error
  unfolding start_profiling
  start_metrics w dp calls =
      if dp.config.enable_metrics
      then elim w.statsd [
        | some e ↦ (
          record dp { statsd = none },
          calls ++ statsd_new (client_of dp.config) ∷ [],
          some (wrapped "failed to initialize statsd client: %w" e),
        )
        | none ↦
            start_profiling w (record dp { statsd = some (client_of dp.config) })
              (calls ++ statsd_new (client_of dp.config) ∷ [])
      ]
      else start_profiling w dp calls

  -- `Initialize`.
  unfoldable pub initialize :
      Outside → DatadogProvider → DatadogProvider × List (Call F) × Option Error
  unfolding start_metrics
  initialize w dp =
      if dp.initialized
      then (dp, [], none)
      else start_metrics w dp
          (if dp.config.enable_tracing then start_of_tracer dp.config ∷ [] else [])

  -- `Shutdown`.
  unfoldable pub shutdown : DatadogProvider → List (Call F)
  shutdown dp =
      (if dp.config.enable_tracing then tracer_stop ∷ [] else [])
      ++ (elim (active dp) [ none ↦ [] | some c ↦ statsd_close c ∷ [] ]
          ++ (if dp.config.enable_profiling then profiler_stop ∷ [] else []))

  -- `IncrementCounter`, `Gauge` and `Timing`.
  unfoldable pub increment_counter : DatadogProvider → String → ℤ → List String → List (Call F)
  increment_counter dp name value tags = elim (active dp) [
    | none ↦ []
    | some c ↦ count c name value tags ∷ []
  ]

  unfoldable pub set_gauge : DatadogProvider → String → F → List String → List (Call F)
  set_gauge dp name value tags = elim (active dp) [
    | none ↦ []
    | some c ↦ gauge c name value tags ∷ []
  ]

  unfoldable pub record_timing : DatadogProvider → String → ℤ → List String → List (Call F)
  record_timing dp name value tags = elim (active dp) [
    | none ↦ []
    | some c ↦ timing c name value tags ∷ []
  ]

-- `noopSpan` and `ddSpan`, by the name of its operation.
pub data Span : Type 0 where
  noop_span : Span
  dd_span : String → Span

-- `strings.Split(operationName, ".")[0]`: the characters before the first dot.
unfoldable pub before_dot : List Char → List Char
before_dot [] = []
before_dot (c ∷ cs) = let rest = before_dot cs in if code c == b'.' then [] else c ∷ rest

unfoldable pub component_of : String → String
unfolding before_dot
component_of operation_name = of_chars (before_dot (to_chars operation_name))

module _ {F : Type 0} where
  -- `StartSpan`.
  unfoldable pub start_span : DatadogProvider → String → Span × List (Call F)
  start_span dp operation_name = if not dp.config.enable_tracing then (noop_span, []) else (
    dd_span operation_name,
    span_start operation_name
        ∷ span_set_tag operation_name "component" (text_value (component_of operation_name))
        ∷ [],
  )

  -- `Tracer(name)`, at the name of an operation.
  unfoldable pub trace : DatadogProvider → String → String → Span × List (Call F)
  unfolding start_span
  trace dp name operation_name =
      if not (str_eq operation_name name)
      then start_span dp (str_append name (str_append "." operation_name))
      else start_span dp name

  -- `SetTag` and `Finish`.
  unfoldable pub set_tag : Span → String → TagValue → List (Call F)
  set_tag noop_span key value = []
  set_tag (dd_span name) key value = span_set_tag name key value ∷ []

  unfoldable pub finish : Span → List (Call F)
  finish noop_span = []
  finish (dd_span name) = span_finish name ∷ []
