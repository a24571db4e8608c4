-- ===== src/Lib.antt =====
-- A model of the exchange data importer: a service that fetches the tickers of a crypto exchange
-- each second, keeps a history of them, computes indicators, and publishes and stores the resulting
-- ticks, while it stores the liquidations that the exchange streams.
--
-- The parts of the program, and where they are modelled:
--   Ring         pkg/utils/ringbuffer.go: RingBuffer, with Push, At, Len, Cap, Last and Values
--   Utils        pkg/utils/mathutils and pkg/utils/tradeutils: PercDiff, Clamp, Round, CalculateRSI
--   Domain       internal/domain: the records Order, Liquidation, Ticker and Tick, their Validate, and
--                CalculateIndicators of a ticker and of a tick
--   Importer     internal/importer: UpdateTicker and the other operations on the histories (History),
--                one round of importTick (Tick) and its calls of the telemetry (Metrics), New,
--                initHistory, Start and the loop of startTickersImport (Start), and the loop over
--                liquidations (Liquidations)
--   Repository   internal/infrastructure/repository: the repositories in memory, in SQLite and in
--                MongoDB, and their factories (Factories)
--   Exchanges    internal/infrastructure/exchanges: the conversions, FetchTickers (Fetch), the
--                handling of messages, and the subscription with its reconnections (Session) of
--                Bybit, OKX and Binance; Http and Session hold what the three clients write alike
--   Notifier     internal/notifier and internal/infrastructure/notify: subscriptions and delivery, the
--                strategies, and the clients for the console, for Telegram and for Redis
--   Telemetry    internal/infrastructure/telemetry: the provider for Datadog, and the one that does
--                nothing (Provider)
--   Bootstrap    internal/bootstrap, internal/infrastructure/bootstrap.go and cmd/importer/main.go: the
--                options, the builder, the loggers and clients (Clients), App.Start (App), the
--                subscription of the chosen exchange (Subscription) and main (Main)
-- Prelude, Float, Time and Errors hold what these share. Tests applies the theorems to concrete
-- inputs.
--
-- How the parts interact. main builds an application from the options: an exchange client, a factory of
-- repositories, notifiers and telemetry, and an importer over them. App.Start subscribes the notifiers
-- and starts the importer, which loads the stored ticks and then imports until the context ends. A
-- round of the import takes the tickers that an exchange client converted, and for each that is valid
-- allocates a ticker, merges it into the ring buffer of its symbol, and computes its indicators from
-- that buffer and from the previous tick. It reads the counts of liquidations from the repository,
-- pushes the tick to the ring buffer of ticks, computes the tick's averages, and hands it to the
-- notifier and to the repository. Beside it, the liquidations that a subscription converts reach the
-- importer over two channels (Importer/Stream, Exchanges/*/Stored), which validates and stores
-- them. The buffer of the error channel takes an error only while it holds less than a hundred, and
-- the importer takes errors out of it meanwhile (Exchanges/Channels). main runs that subscription's
-- goroutine too, whose panic would end the program (Bootstrap/Subscription).
--
-- State. A *Ticker and a *Tick are addresses, that is indices into a list that stands for the heap,
-- because the buffers, the ticks and the merge of a minute share tickers. `none` of an operation on
-- that state is a panic. A method that holds its lock throughout is one step. The workers that build
-- the tickers of a tick are taken in the order of the list. The loops that run until the context ends
-- are runs over a list of what meets them: the turns of the import's timer, the attempts of a client to
-- connect, the reads of a connection. Every loop is structural recursion, so there is no fuel.
--
-- Numbers. float64 is a type with the operations that the code calls (Float), and a theorem names the
-- laws of IEEE 754 comparison that it needs (IsOrdered). Times are natural numbers of nanoseconds,
-- durations saturate like time.Time.Sub, and int64 wraps round.
--
-- Not modelled: HTTP, websockets, JSON, the databases and the libraries for Redis, Telegram, Datadog,
-- logging and flags themselves (what they return is a parameter), what is logged, the wait for the next
-- full second, the texts that fmt makes, and the figures in the table of Binance's markets, of which
-- only the names are read.
pub mod Prelude
pub mod Ring
pub mod Float
pub mod Time
pub mod Errors
pub mod Utils
pub mod Domain
pub mod Importer
pub mod Exchanges
pub mod Repository
pub mod Notifier
pub mod Bootstrap
pub mod Telemetry
pub mod Tests
