-- ===== src/Tests/Program.antt =====
-- The builder, the telemetry and the start of an application on concrete inputs.
use exchange_data_importer.Prelude.{◌≡◌, refl, true, false, none, some, List, [], ◌∷◌, of_chars}
use exchange_data_importer.Prelude.Int.{ℤ, pos}
use exchange_data_importer.Float.Whole.{whole}
use exchange_data_importer.Errors.{errorf, ok, err}
use exchange_data_importer.Telemetry.{
  DatadogConfig, DatadogProvider, Outside, Call, new_datadog_provider, client_of, initialize,
  statsd_new, start_of_tracer,
}
use exchange_data_importer.Telemetry.Lifecycle.{IsReady, initialize-IsReady}
use exchange_data_importer.Importer.Metrics.{Durations, import_calls}
use exchange_data_importer.Importer.Metrics.Spans.{open_after, import_calls_closed}
use exchange_data_importer.Telemetry.Provider.{noop, datadog}
use exchange_data_importer.Repository.Factories.{in_memory}
use exchange_data_importer.Bootstrap.Options.{split_topics}
use exchange_data_importer.Bootstrap.Topics.{
  Field, blank, named, joined, IsName, names_of, split_topics-joined,
}
use exchange_data_importer.Bootstrap.Builder.{Builder, console, tick_info}
use exchange_data_importer.Bootstrap.App.{start_app}
use exchange_data_importer.Bootstrap.App.Subscribed.{Started, start_app-Started}
use exchange_data_importer.Importer.Start.Newest.{first_state, first_state-IsState}
use exchange_data_importer.Importer.Start.Runs.{course}
use exchange_data_importer.Tests.Data.{clock}
use exchange_data_importer.Tests.Around.{options}
use exchange_data_importer.Tests.Sessions.{parse_one, bybit_attempts, okx_attempts}
use exchange_data_importer.Bootstrap.Subscription.{Connections}
use exchange_data_importer.Tests.Start.{stored_ticks, history, turns, answered-HasTickers}

-- Tracing and metrics, without profiling.
abbrev config : DatadogConfig
config = record {
  agent_host = "localhost";
  agent_port = "8126";
  service_name = "importer";
  service_env = "test";
  tags = "revision:local" ∷ [];
  enable_tracing = true;
  enable_metrics = true;
  enable_profiling = false;
}

abbrev all_well : Outside
all_well = record { statsd = none; profiler = none }

abbrev ready : DatadogProvider
ready = record { config = config; statsd = some (client_of config); initialized = true }

abbrev starts : List (Call ℤ)
starts = start_of_tracer config ∷ statsd_new (client_of config) ∷ []

initialized : initialize all_well (new_datadog_provider config) ≡ (ready, starts, none)
unfolding initialize new_datadog_provider
initialized = refl

initialize-IsReady_example : IsReady config starts ready
initialize-IsReady_example = initialize-IsReady all_well config ready starts initialized

-- " AB,," with a blank field at its end.
abbrev fields : List Field
fields = named (" " ∷ []) ("A" ∷ "B" ∷ []) [] ∷ blank [] ∷ []

ab-IsName : IsName ("A" ∷ "B" ∷ [])
ab-IsName = record {
  no_comma = (refl, (refl, tt));
  first = "A";
  rest = "B" ∷ [];
  starts = refl;
  first_shows = refl;
  final = "B";
  ends = refl;
  final_shows = refl;
}

split_topics-joined_example : split_topics (of_chars (joined fields)) ≡ names_of fields
split_topics-joined_example = split_topics-joined fields (((refl, tt), ab-IsName, tt), (tt, tt))

-- The console is subscribed to a topic of the three, and to another.
abbrev app : Builder
app = record {
  logger = none;
  options = options;
  exchange = none;
  repository_factory = in_memory;
  notifiers =
      record { client = console; topic = "TICK_INFO"; strategy = tick_info }
      ∷ record { client = console; topic = "NEWS"; strategy = tick_info }
      ∷ [];
  telemetry = noop;
  problem = none;
}

start_app-Started_example :
    Started app
      (course true (ok history) turns)
      (start_app app true stored_ticks (clock 2 0) first_state turns)
start_app-Started_example =
    start_app-Started app true stored_ticks (clock 2 0) first_state turns first_state-IsState
      answered-HasTickers

-- What the connections of Bybit and OKX give, with a detail in each liquidation of OKX.
abbrev connections : Connections ℤ
connections = record {
  parse_float = parse_one;
  parse_int = parse_one;
  binance_attempts = [];
  bybit_attempts = bybit_attempts;
  okx_attempts = okx_attempts;
  room = 9;
  drained = [];
}

abbrev durations : Durations
durations = record { fetch = pos 7; liquidations = pos 1; calculation = pos 2 }

-- A round whose fetch fails, under tracing.
import_calls_closed_example :
    open_after {F = ℤ} []
      (import_calls (λ e. "no answer") (datadog ready) durations (err (errorf "no answer")) 0)
    ≡ some []
import_calls_closed_example =
    import_calls_closed (λ e. "no answer") (datadog ready) durations (err (errorf "no answer")) 0 []
