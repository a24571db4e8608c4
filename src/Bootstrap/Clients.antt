-- ===== src/Bootstrap/Clients.antt =====
-- internal/infrastructure/bootstrap.go: the logger and the clients of Redis and MongoDB. The libraries
-- are parameters: the outcome of each call.
use exchange_data_importer.Prelude.{String, Bool, ◌||◌, Option, none, some, str_eq, if◌then◌else◌}
use exchange_data_importer.Errors.{Error, wrapped, Result, ok, err}

-- The two loggers of zap.
pub data Logger : Type 0 where
  production : String → String → Logger
  development : Logger

-- What the libraries answer: whether zap made the two loggers, the URL of Redis, the connection to
-- MongoDB, and the pings.
pub record Libraries : Type 0 where
  pub production_made : Bool
  pub development_made : Bool
  pub redis_url : Option Error
  pub redis_ping : Option Error
  pub mongo_connect : Option Error
  pub mongo_ping : Option Error

-- `NewRedisClient`, by its URL.
unfoldable pub new_redis_client : Libraries → String → Result String
new_redis_client w url = elim w.redis_url [
  | some e ↦ err e
  | none ↦ elim w.redis_ping [ some e ↦ err e | none ↦ ok url ]
]

-- `NewMongoClient`, by its URI.
unfoldable pub new_mongo_client : Libraries → String → Result String
new_mongo_client w uri = elim w.mongo_connect [
  | some e ↦ err (wrapped "mongo.Connect failed: %w" e)
  | none ↦ elim w.mongo_ping [ some e ↦ err (wrapped "mongo.Ping failed: %w" e) | none ↦ ok uri ]
]

-- `NewLogger`: the logger, `none` where it is nil, and no error, since those of zap are dropped.
unfoldable pub new_logger : Libraries → String → String → Option Logger × Option Error
new_logger w env service =
    if str_eq env "" || str_eq env "development"
    then (if w.development_made then some development else none, none)
    else (if w.production_made then some (production env service) else none, none)
