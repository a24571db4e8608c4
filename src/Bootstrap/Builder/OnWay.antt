-- ===== src/Bootstrap/Builder/OnWay.antt =====
-- internal/bootstrap/builder.go: what each step of the chain of main keeps of the builder.
use exchange_data_importer.Prelude.{
  String, ◌≡◌, refl, ◌≢◌, inl, inr, Option, none, some, arith, if◌then◌else◌, Option-cases, Bool,
  true, false, ◌&&◌, not, str_eq, List, [], ◌++◌,
}
use exchange_data_importer.Errors.{Result, ok, err}
use exchange_data_importer.Notifier.Clients.{new_telegram_notifier}
use exchange_data_importer.Repository.Factories.{RepositoryFactory, in_memory, mongo, sqlite}
use exchange_data_importer.Bootstrap.Options.{Options}
use exchange_data_importer.Bootstrap.Clients.{
  Logger, new_redis_client, new_mongo_client, new_logger,
}
use exchange_data_importer.Bootstrap.Exchange.{Exchange, new_binance, new_bybit, new_okx, config_of}
use exchange_data_importer.Bootstrap.Builder.{
  Builder, Outside, new_sqlite_repo_factory, with_logger, with_exchange, with_repository,
  with_notifiers, with_telemetry, NotifierConfig, dsn_of, warned, redis_notifiers,
  telegram_notifiers, stdout_notifiers,
}

-- The first exchange that is enabled.
abbrev pub chosen : Options → Option Exchange
chosen o =
    if o.binance.enabled
    then some (new_binance (config_of o o.binance))
    else if o.bybit.enabled
    then some (new_bybit (config_of o o.bybit))
    else if o.okx.enabled
    then some (new_okx (config_of o o.okx))
    else none

-- The repository that the options configure: MongoDB before SQLite, which needs a path, and else the
-- memory.
abbrev pub configured : Options → RepositoryFactory
configured o =
    if o.mongo_enabled
    then mongo o.mongo_url
    else if not (o.sqlite_enabled && not (str_eq o.sqlite_path ""))
    then in_memory
    else sqlite (dsn_of o)

-- That zap makes its loggers.
pub record HasLoggers (w : Outside) : Type 0 where
  pub production : w.libraries.production_made ≡ true
  pub development : w.libraries.development_made ≡ true

-- A builder on the way: with the options it was made from, and, unless it has an error, a logger, the
-- exchange of the options and the repository `factory`.
pub record IsOnWay (o : Options) (factory : RepositoryFactory) (b : Builder) : Type 0 where
  pub same_options : b.options ≡ o
  pub has_logger : b.problem ≡ none → b.logger ≢ none
  pub has_exchange : b.problem ≡ none → b.exchange ≡ chosen o
  pub has_some : b.problem ≡ none → b.exchange ≢ none
  pub has_factory : b.problem ≡ none → b.repository_factory ≡ factory

-- The builder before its exchange is chosen.
pub record HasStarted (o : Options) (b : Builder) : Type 0 where
  same_options : b.options ≡ o
  has_logger : b.problem ≡ none → b.logger ≢ none
  has_factory : b.repository_factory ≡ in_memory

pub with_logger-HasStarted :
    (w : Outside) (b : Builder)
    → HasLoggers w
    → b.repository_factory ≡ in_memory
    → HasStarted b.options (with_logger w b)
unfolding with_logger new_logger
with_logger-HasStarted w b made e = record {
  same_options = ground arith;
  has_logger = λ h. ground (arith, made.production, made.development);
  has_factory = ground arith;
}

pub with_exchange-IsOnWay :
    (o : Options) (b : Builder) → HasStarted o b → IsOnWay o in_memory (with_exchange b)
unfolding with_exchange
with_exchange-IsOnWay o b s = record {
  same_options = ground (arith, s.same_options);
  has_logger = λ h. ground (arith, s.has_logger);
  has_exchange = λ h. ground (arith, s.same_options);
  has_some = λ h. ground arith;
  has_factory = λ h. ground (arith, s.has_factory);
}

pub with_repository-IsOnWay :
    (w : Outside) (o : Options) (b : Builder)
    → IsOnWay o in_memory b
    → IsOnWay o (configured o) (with_repository w b)
unfolding with_repository new_mongo_client new_sqlite_repo_factory
with_repository-IsOnWay w o b i = record {
  same_options = ground (arith, i.same_options);
  has_logger = λ h. ground (arith, i.has_logger);
  has_exchange = λ h. ground (arith, i.has_exchange);
  has_some = λ h. ground (arith, i.has_some);
  has_factory = λ h. ground (arith, i.has_factory, i.same_options);
}

warned_total : (l : Option Logger) → l ≢ none → (ns : List NotifierConfig) × (warned l ≡ some ns)
warned_total none h = absurd (h refl)
warned_total (some l) h = ([], refl)

-- The notifiers of a client that was configured or not, and made or not.
client_notifiers_total :
    {A : Type 0} (empty : Bool) (made : Result A) (notifiers : A → List NotifierConfig)
    (l : Option Logger)
    → l ≢ none
    → (ns : List NotifierConfig) × ((if empty
          then some []
          else elim made [ err e ↦ warned l | ok client ↦ some (notifiers client) ])
        ≡ some ns)
client_notifiers_total true made notifiers l h = ([], refl)
client_notifiers_total false (ok client) notifiers l h = (notifiers client, refl)
client_notifiers_total false (err e) notifiers l h = warned_total l h

redis_notifiers_total :
    (w : Outside) (b : Builder)
    → b.logger ≢ none
    → (ns : List NotifierConfig) × (redis_notifiers w b ≡ some ns)
unfolding redis_notifiers
redis_notifiers_total w b h =
    client_notifiers_total (str_eq b.options.redis.topics "")
      (new_redis_client w.libraries b.options.redis.url) _ b.logger h

telegram_notifiers_total :
    (b : Builder) → b.logger ≢ none → (ns : List NotifierConfig) × (telegram_notifiers b ≡ some ns)
unfolding telegram_notifiers
telegram_notifiers_total b h =
    let t = b.options.telegram in
    client_notifiers_total (str_eq t.topics "")
      (new_telegram_notifier t.bot_token t.chat_id t.interval) _ b.logger h

pub with_notifiers-IsOnWay :
    (w : Outside) (o : Options) (factory : RepositoryFactory) (b : Builder)
    → IsOnWay o factory b
    → (b' : Builder) × (with_notifiers w b ≡ some b') × IsOnWay o factory b'
unfolding with_notifiers
with_notifiers-IsOnWay w o factory b i = elim (Option-cases b.problem) [
  | inr (e, failed) ↦ (b, cc failed, i)
  | inl fine ↦
      let (from_redis, e1) = redis_notifiers_total w b (i.has_logger fine) in
      let (from_telegram, e2) = telegram_notifiers_total b (i.has_logger fine) in
      (
        record b { notifiers = from_redis ++ (from_telegram ++ stdout_notifiers b.options) },
        cc (fine, e1, e2),
        record {
          same_options = i.same_options;
          has_logger = i.has_logger;
          has_exchange = i.has_exchange;
          has_some = i.has_some;
          has_factory = i.has_factory;
        },
      )
]

pub with_telemetry-IsOnWay :
    (w : Outside) (o : Options) (factory : RepositoryFactory) (r : String) (b : Builder)
    → IsOnWay o factory b
    → IsOnWay o factory (with_telemetry w r b)
unfolding with_telemetry
with_telemetry-IsOnWay w o factory r b i = record {
  same_options = ground (arith, i.same_options);
  has_logger = λ h. ground (arith, i.has_logger);
  has_exchange = λ h. ground (arith, i.has_exchange);
  has_some = λ h. ground (arith, i.has_some);
  has_factory = λ h. ground (arith, i.has_factory);
}
