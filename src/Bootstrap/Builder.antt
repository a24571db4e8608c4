-- ===== src/Bootstrap/Builder.antt =====
-- internal/bootstrap/builder.go. The parser of flags and the libraries of the external clients are
-- parameters: the outcome of each call. A builder whose options could not be parsed keeps them, but no
-- step reads them. What is logged is left out.
pub mod OnWay
pub mod Outcome
use exchange_data_importer.Prelude.{
  ℕ, String, ◌&&◌, not, Option, none, some, List, [], ◌∷◌, ◌++◌, map, str_eq, str_append,
  if◌then◌else◌,
}
use exchange_data_importer.Prelude.Partial.{◌>>=◌}
use exchange_data_importer.Errors.{Error, errorf, wrapped, Result, ok, err}
use exchange_data_importer.Notifier.Clients.{TelegramNotifier, new_telegram_notifier}
use exchange_data_importer.Telemetry as Telemetry
use exchange_data_importer.Telemetry.{DatadogConfig, new_datadog_provider, initialize}
use exchange_data_importer.Telemetry.Provider.{Provider, noop, datadog}
use exchange_data_importer.Repository.Factories.{
  SetUp, RepositoryFactory, in_memory, mongo, sqlite, get_tick_repository,
  get_liquidation_repository,
}
use exchange_data_importer.Importer.Tick.{State}
use exchange_data_importer.Importer.Start.{new_importer}
use exchange_data_importer.Bootstrap.Options.{Options, parse_options, split_topics}
use exchange_data_importer.Bootstrap.Exchange.{
  Exchange, new_binance, new_bybit, new_okx, config_of, name_of,
}
use exchange_data_importer.Bootstrap.Clients.{
  Logger, Libraries, new_redis_client, new_mongo_client, new_logger,
}

pub data Client : Type 0 where
  redis : String → Client
  telegram : TelegramNotifier → Client
  console : Client

pub data Strategy : Type 0 where
  market_data alert tick_info : Strategy

pub record NotifierConfig : Type 0 where
  pub client : Client
  pub topic : String
  pub strategy : Strategy

-- The `App` of the builder, whose importer is made by `Build`, and the builder's `err`.
pub record Builder : Type 0 where
  pub logger : Option Logger
  pub options : Options
  pub exchange : Option Exchange
  pub repository_factory : RepositoryFactory
  pub notifiers : List NotifierConfig
  pub telemetry : Provider
  pub problem : Option Error

-- What is outside: the libraries of the clients, opening SQLite, setting up a database, and the
-- libraries for Datadog.
pub record Outside : Type 0 where
  pub libraries : Libraries
  pub sqlite_open : Option Error
  pub set_up : SetUp
  pub telemetry : Telemetry.Outside

-- A step does nothing once the builder has an error.
abbrev pub unless_failed : Builder → Builder → Builder
unless_failed b next = elim b.problem [ none ↦ next | some e ↦ b ]

abbrev pub fail : Builder → Error → Builder
fail b e = record b { problem = some e }

-- `NewBuilder` with `fetchOptions`.
unfoldable pub new_builder : Outside → Options → Option Error → Builder
unfolding new_logger parse_options
new_builder w parsed parse_error = record {
  logger = (new_logger w.libraries "development" "exchange-data-importer").0;
  options = parsed;
  exchange = none;
  repository_factory = in_memory;
  notifiers = [];
  telemetry = noop;
  problem = elim (parse_options parsed parse_error) [
    | ok opts ↦ none
    | err e ↦ some (wrapped "parsing options: %w" e)
  ];
}

-- `WithLogger`.
unfoldable pub with_logger : Outside → Builder → Builder
unfolding new_logger
with_logger w b =
    let made = new_logger w.libraries b.options.env b.options.service_name in
    unless_failed b (elim made.1 [
      | some e ↦ fail b (wrapped "creating logger: %w" e)
      | none ↦ record b { logger = made.0 }
    ])

-- `WithExchange`.
unfoldable pub with_exchange : Builder → Builder
with_exchange b =
    let o = b.options in
    unless_failed b (
      if o.binance.enabled
      then record b { exchange = some (new_binance (config_of o o.binance)) }
      else if o.bybit.enabled
      then record b { exchange = some (new_bybit (config_of o o.bybit)) }
      else if o.okx.enabled
      then record b { exchange = some (new_okx (config_of o o.okx)) }
      else fail b (errorf "no exchange configured"))

-- The data source name of SQLite.
abbrev pub dsn_of : Options → String
dsn_of o = str_append "file:" (
    str_append o.service_name
      (str_append "_" (str_append o.sqlite_path "?cache=shared&_foreign_keys=on")))

-- `NewSQLiteRepoFactory`.
unfoldable pub new_sqlite_repo_factory : Option Error → String → Result RepositoryFactory
new_sqlite_repo_factory none dsn = ok (sqlite dsn)
new_sqlite_repo_factory (some e) dsn = err (wrapped "failed to open sqlite db: %w" e)

-- `WithRepository`. `NewMongoRepoFactory` never fails.
unfoldable pub with_repository : Outside → Builder → Builder
unfolding new_mongo_client new_sqlite_repo_factory
with_repository w b =
    let o = b.options in
    unless_failed b (
      if o.mongo_enabled
      then elim (new_mongo_client w.libraries o.mongo_url) [
        | err e ↦ fail b (wrapped "creating mongo client: %w" e)
        | ok client ↦ record b { repository_factory = mongo client }
      ]
      else if o.sqlite_enabled && not (str_eq o.sqlite_path "")
      then elim (new_sqlite_repo_factory w.sqlite_open (dsn_of o)) [
        | err e ↦ fail b (wrapped "creating repository factory: %w" e)
        | ok factory ↦ record b { repository_factory = factory }
      ]
      else b)

abbrev pub configs : Client → Strategy → List String → List NotifierConfig
configs client strategy topics =
    map (λ topic. record { client = client; topic = topic; strategy = strategy }) topics

-- A warning on the logger, which panics where it is nil.
abbrev pub warned : Option Logger → Option (List NotifierConfig)
warned none = none
warned (some logger) = some []

-- The three parts of `WithNotifiers`. A client that could not be made is only warned of.
unfoldable pub redis_notifiers : Outside → Builder → Option (List NotifierConfig)
unfolding new_redis_client
redis_notifiers w b =
    let o = b.options in
    if str_eq o.redis.topics "" then some [] else elim (new_redis_client w.libraries o.redis.url) [
      | err e ↦ warned b.logger
      | ok client ↦ some (
          map
            (λ topic. record {
              client = redis (str_append o.service_name (str_append ":" topic));
              topic = topic;
              strategy = market_data;
            })
            (split_topics o.redis.topics))
    ]

unfoldable pub telegram_notifiers : Builder → Option (List NotifierConfig)
telegram_notifiers b =
    let o = b.options in
    if str_eq o.telegram.topics ""
    then some []
    else elim (new_telegram_notifier o.telegram.bot_token o.telegram.chat_id o.telegram.interval) [
      | err e ↦ warned b.logger
      | ok client ↦ some (configs (telegram client) alert (split_topics o.telegram.topics))
    ]

unfoldable pub stdout_notifiers : Options → List NotifierConfig
stdout_notifiers o =
    if str_eq o.stdout_topics ""
    then []
    else configs console tick_info (split_topics o.stdout_topics)

-- `WithNotifiers`; `none` is a panic.
unfoldable pub with_notifiers : Outside → Builder → Option Builder
with_notifiers w b = elim b.problem [
  | some e ↦ some b
  | none ↦ do
    from_redis ← redis_notifiers w b
    from_telegram ← telegram_notifiers b
    some (record b { notifiers = from_redis ++ (from_telegram ++ stdout_notifiers b.options) })
]

-- The configuration of Datadog.
abbrev pub datadog_config : Options → String → DatadogConfig
datadog_config o revision = record {
  agent_host = o.datadog.agent_host;
  agent_port = o.datadog.agent_port;
  service_name = o.service_name;
  service_env = o.env;
  tags = str_append "revision:" revision ∷ [];
  enable_tracing = o.datadog.enabled_tracing;
  enable_metrics = o.datadog.enabled_metrics;
  enable_profiling = o.datadog.enabled_profiling;
}

-- `WithTelemetry`. The provider is kept even where it could not be initialized.
unfoldable pub with_telemetry : Outside → String → Builder → Builder
with_telemetry w revision b = unless_failed b (
    if b.options.datadog.enabled
    then (let made =
          initialize {F = ℕ} w.telemetry
            (new_datadog_provider (datadog_config b.options revision)) in
        record b {
          telemetry = datadog made.0;
          problem = elim made.2 [
            | some e ↦ some (wrapped "initializing telemetry provider: %w" e)
            | none ↦ none
          ];
        })
    else b)

abbrev pub problem_of : {A : Type 0} → Result A → Option Error
problem_of (ok a) = none
problem_of (err e) = some e

-- `App`: what the builder put together, and the state of its importer.
pub record App (F : Type 0) : Type 0 where
  pub builder : Builder
  pub importer : State F

module _ {F : Type 0} where
  -- `Build`. With a nil logger `notifier.New` panics, and with no exchange `importer.New` does, which
  -- reads the exchange's name before the check for a missing exchange: the outer `none`.
  unfoldable pub build : Outside → Builder → Option (Result (App F))
  unfolding get_tick_repository get_liquidation_repository new_importer
  build w b = elim b.problem [
    | some e ↦ some (err e)
    | none ↦ elim b.logger [
      | none ↦ none
      | some logger ↦ elim b.exchange [
        | none ↦ none
        | some x ↦
            let name = name_of x in
            elim (new_importer {F = F}
              (problem_of (get_tick_repository w.set_up b.repository_factory name))
              (problem_of (get_liquidation_repository w.set_up b.repository_factory name))) [
                | none ↦ some (err (errorf "missing required dependencies"))
                | some importer ↦ some (ok (record { builder = b; importer = importer }))
              ]
      ]
    ]
  ]

  -- The chain in `main`.
  unfoldable pub build_app : Outside → Options → Option Error → String → Option (Result (App F))
  unfolding new_builder with_logger with_exchange with_repository with_notifiers with_telemetry
      build
  build_app w parsed parse_error revision = do
    b ←
        with_notifiers w
          (with_repository w (with_exchange (with_logger w (new_builder w parsed parse_error))))
    build w (with_telemetry w revision b)
