-- ===== src/Telemetry/Provider.antt =====
-- internal/infrastructure/telemetry/telemetry.go and noop.go: the interface that the program holds, over
-- the provider for Datadog and the one that does nothing.
use exchange_data_importer.Prelude.{String, Option, none, List, []}
use exchange_data_importer.Prelude.Int.{ℤ}
use exchange_data_importer.Errors.{Error}
use exchange_data_importer.Telemetry.{
  DatadogProvider, Outside, Call, Span, noop_span, initialize, shutdown, start_span,
  increment_counter, set_gauge, record_timing,
}

pub data Provider : Type 0 where
  noop : Provider
  datadog : DatadogProvider → Provider

module _ {F : Type 0} where
  unfoldable pub provider_initialize : Outside → Provider → Provider × List (Call F) × Option Error
  unfolding initialize
  provider_initialize w noop = (noop, [], none)
  provider_initialize w (datadog dp) = let r = initialize {F = F} w dp in (datadog r.0, r.1, r.2)

  unfoldable pub provider_shutdown : Provider → List (Call F)
  unfolding shutdown
  provider_shutdown noop = []
  provider_shutdown (datadog dp) = shutdown dp

  unfoldable pub provider_start_span : Provider → String → Span × List (Call F)
  unfolding start_span
  provider_start_span noop operation_name = (noop_span, [])
  provider_start_span (datadog dp) operation_name = start_span dp operation_name

  unfoldable pub provider_increment_counter : Provider → String → ℤ → List String → List (Call F)
  unfolding increment_counter
  provider_increment_counter noop name value tags = []
  provider_increment_counter (datadog dp) name value tags = increment_counter dp name value tags

  unfoldable pub provider_gauge : Provider → String → F → List String → List (Call F)
  unfolding set_gauge
  provider_gauge noop name value tags = []
  provider_gauge (datadog dp) name value tags = set_gauge dp name value tags

  unfoldable pub provider_timing : Provider → String → ℤ → List String → List (Call F)
  unfolding record_timing
  provider_timing noop name value tags = []
  provider_timing (datadog dp) name value tags = record_timing dp name value tags
