-- ===== src/Repository/Factories.antt =====
-- internal/infrastructure/repository: the factories in memory/factory.go, sqlite/factory.go and
-- mongo/factory.go, the repositories of ticks in memory/tick.go, and the indexes of MongoDB. Opening
-- and setting up a database are parameters: the outcome of each call.
use exchange_data_importer.Prelude.{ℕ, ◌*◌, String, Option, none, some, List, [], ◌∷◌, str_append}
use exchange_data_importer.Time.{Time}
use exchange_data_importer.Errors.{Error, wrapped, Result, ok, err}
use exchange_data_importer.Repository.Sqlite.{create_table}

-- `mongo.IndexModel`: the fields, all ascending, and the seconds after which a document expires.
pub record IndexModel : Type 0 where
  pub keys : List String
  pub expire_after_seconds : Option ℕ

-- What setting up gives: creating indexes on a collection of MongoDB, and a table of SQLite.
pub record SetUp : Type 0 where
  pub create_indexes : String → List IndexModel → Option Error
  pub make_table : String → Option Error

pub data RepositoryFactory : Type 0 where
  in_memory : RepositoryFactory
  mongo : String → RepositoryFactory
  sqlite : String → RepositoryFactory

-- A repository, by the collection or the data source that it works on.
pub data TickRepository : Type 0 where
  stats_ticks : TickRepository
  mongo_ticks : String → TickRepository
  sqlite_ticks : String → TickRepository

pub data LiquidationRepository : Type 0 where
  memory_liquidations : LiquidationRepository
  mongo_liquidations : String → LiquidationRepository
  sqlite_liquidations : String → LiquidationRepository

-- The repository, unless setting it up gave an error.
abbrev pub unless_error : {A : Type 0} → A → Option Error → Result A
unless_error a none = ok a
unless_error a (some e) = err e

-- An error under a format.
abbrev pub wrap : String → Option Error → Option Error
wrap format none = none
wrap format (some e) = some (wrapped format e)

-- The indexes of `ensureIndexes`.
abbrev pub indexes : List IndexModel
indexes =
    record { keys = "st" ∷ "et" ∷ "order.sd" ∷ []; expire_after_seconds = none }
    ∷ record { keys = "st" ∷ "et" ∷ "symbol" ∷ "order.sd" ∷ []; expire_after_seconds = none }
    ∷ record { keys = "st" ∷ []; expire_after_seconds = some (60 * 60 * 24 * 7) }
    ∷ []

-- `NewLiquidationRepository` on a collection, which is never nil here.
unfoldable pub new_liquidation_repository : SetUp → String → Result LiquidationRepository
new_liquidation_repository w collection =
    unless_error (mongo_liquidations collection) (w.create_indexes collection indexes)

-- `GetTickRepository` of the three factories.
unfoldable pub get_tick_repository : SetUp → RepositoryFactory → String → Result TickRepository
unfolding create_table
get_tick_repository w in_memory name = ok stats_ticks
get_tick_repository w (sqlite dsn) name =
    unless_error (sqlite_ticks dsn) (create_table (w.make_table "ticks"))
get_tick_repository w (mongo url) name =
    let collection = str_append name "_tick" in
    unless_error (mongo_ticks collection) (
      wrap "error creating index for tick repository: %w" (
        w.create_indexes collection
          (record { keys = "created_at" ∷ []; expire_after_seconds = none } ∷ [])))

-- `GetLiquidationRepository` of the three factories.
unfoldable pub get_liquidation_repository :
    SetUp → RepositoryFactory → String → Result LiquidationRepository
unfolding create_table new_liquidation_repository
get_liquidation_repository w in_memory name = ok memory_liquidations
get_liquidation_repository w (sqlite dsn) name =
    unless_error (sqlite_liquidations dsn) (create_table (w.make_table "liquidations"))
get_liquidation_repository w (mongo url) name =
    elim (new_liquidation_repository w (str_append name "_liquidation")) [
      | ok repo ↦ ok repo
      | err e ↦ err (wrapped "error creating liquidation repository: %w" e)
    ]

-- `Create` and `GetHistorySince` of `StatsTickRepository`.
unfoldable pub stats_create : {A : Type 0} → A → Option Error
stats_create tick = none

unfoldable pub stats_get_history_since : {A : Type 0} → Time → Result (List A)
stats_get_history_since since = ok []
