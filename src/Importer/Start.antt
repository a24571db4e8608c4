-- ===== src/Importer/Start.antt =====
-- internal/importer/importer.go and history_manager.go: New, the load of the stored ticks, and the
-- loop of the import. The repository, the subscription, the clock and the context are parameters.
pub mod Restored
pub mod Runs
pub mod Newest
pub mod Panics
use exchange_data_importer.Prelude.{
  ℕ, suc, ◌*◌, String, Bool, Option, none, some, List, [], ◌∷◌, ◌++◌, if◌then◌else◌, length,
}
use exchange_data_importer.Prelude.Partial.{◌>>=◌}
use exchange_data_importer.Float.{Float}
use exchange_data_importer.Time.{Time, back, minute}
use exchange_data_importer.Errors.{Error, errorf, wrapped, Result, ok, err}
use exchange_data_importer.Domain.Ticker.{Ticker, Tick, Heap, max_tick_history}
use exchange_data_importer.Importer.History.{
  TickerHistory, new_buffer, add_ticker_history, add_tick_history,
}
use exchange_data_importer.Importer.Tick.{State, World, Effect, import_tick}

-- A tick that the repository decoded, with what its data has under each name, `none` where the pointer
-- is nil, in the order in which the loop of `initHistory` takes them.
pub record StoredTick (F : Type 0) : Type 0 where
  pub tick : Tick F
  pub entries : List (String × Option (Ticker F))

-- One turn of the loop of `startTickersImport`: the context has ended, with its error, or the timer
-- fires on a world to import from.
pub data Turn (F : Type 0) : Type 0 where
  context_done : Error → Turn F
  timer : World F → Turn F

-- Whether a call of `Start` still runs, has returned nil, or has returned an error.
pub data Progress : Type 0 where
  running : Progress
  finished : Progress
  stopped : Error → Progress

abbrev pub wrap_progress : String → Progress → Progress
wrap_progress format running = running
wrap_progress format finished = finished
wrap_progress format (stopped e) = stopped (wrapped format e)

-- `New`, by the errors of making the two repositories: `none` is the nil importer.
unfoldable pub new_importer : {F : Type 0} → Option Error → Option Error → Option (State F)
unfolding new_buffer
new_importer (some e) liquidations = none
new_importer none (some e) = none
new_importer none none =
    some (record { tickers = []; ticks = []; tick_history = new_buffer; ticker_history = [] })

module _ {F : Type 0} where
  -- The data of a tick whose tickers the decoder put at the addresses from `p` on.
  abbrev pub at_addresses : ℕ → List (String × Option (Ticker F)) → List (String × ℕ)
  at_addresses p [] = []
  at_addresses p ((name, t) ∷ rest) = (name, p) ∷ at_addresses (suc p) rest

  -- The tickers behind the pointers of a stored tick. `UpdateTicker` reads the symbol of each, so a nil
  -- pointer is a panic: `none`.
  unfoldable pub present : List (String × Option (Ticker F)) → Option (Heap F)
  present [] = some []
  present ((name, none) ∷ rest) = none
  present ((name, some t) ∷ rest) = do loaded ← present rest; some (t ∷ loaded)

module _ {F : Type 0} ⦃f : Float F⦄ where
  -- The inner loop of `initHistory`.
  unfoldable pub add_tickers :
      Heap F → TickerHistory → List (String × ℕ) → Option (Heap F × TickerHistory)
  add_tickers h m [] = some (h, m)
  add_tickers h m ((name, p) ∷ rest) = do
    (h', m') ← add_ticker_history h m p
    add_tickers h' m' rest

  -- The outer loop of `initHistory`. The tickers of a tick are allocated when its turn comes.
  unfoldable pub restore_tick : State F → StoredTick F → Option (State F)
  unfolding present add_tickers
  restore_tick s stored = do
    loaded ← present stored.entries
    let data_ = at_addresses (length s.tickers) stored.entries
    let ticks = s.ticks ++ record stored.tick { data_ = data_ } ∷ []
    ring ← add_tick_history ticks s.tick_history (length s.ticks)
    (h, m) ← add_tickers (s.tickers ++ loaded) s.ticker_history data_
    some (record { tickers = h; ticks = ticks; tick_history = ring; ticker_history = m })

  unfoldable pub restore_ticks : State F → List (StoredTick F) → Option (State F)
  unfolding restore_tick
  restore_ticks s [] = some s
  restore_ticks s (stored ∷ rest) = do s' ← restore_tick s stored; restore_ticks s' rest

  -- `initHistory` at the time `now`.
  unfoldable pub init_history :
      (Time → Result (List (StoredTick F))) → Time → State F → Option (State F × Option Error)
  unfolding restore_ticks
  init_history get_history_since now s =
      elim (get_history_since (back now (max_tick_history * minute))) [
        | err e ↦ some (s, some (wrapped "GetHistorySince failed: %w" e))
        | ok history ↦ do s' ← restore_ticks s history; some (s', none)
      ]

  -- The loop of `startTickersImport`: the error of a round is only logged.
  unfoldable pub import_loop :
      State F → List (Turn F) → Option (State F × Progress × List (Effect F))
  import_loop s [] = some (s, running, [])
  import_loop s (context_done e ∷ rest) = some (s, stopped e, [])
  import_loop s (timer w ∷ rest) = do
    (s1, problem, effects) ← import_tick s w
    (s2, progress, more) ← import_loop s1 rest
    some (s2, progress, effects ++ more)

  -- `startTickersImport`.
  unfoldable pub start_tickers_import :
      (Time → Result (List (StoredTick F)))
      → Time
      → State F
      → List (Turn F)
      → Option (State F × Progress × List (Effect F))
  unfolding init_history import_loop
  start_tickers_import get_history_since now s turns = do
    (s', problem) ← init_history get_history_since now s
    elim problem [
      | some e ↦ some (s', stopped (wrapped "failed to init history: %w" e), [])
      | none ↦ import_loop s' turns
    ]

  -- `Start`, where `subscribed` says that both channels of the subscription are there. The import of
  -- liquidations runs beside it.
  unfoldable pub start :
      Bool
      → (Time → Result (List (StoredTick F)))
      → Time
      → State F
      → List (Turn F)
      → Option (State F × Progress × List (Effect F))
  unfolding start_tickers_import
  start subscribed get_history_since now s turns =
      if subscribed
      then (do
        (s', progress, effects) ← start_tickers_import get_history_since now s turns
        some (s', wrap_progress "failed to start tickers import: %w" progress, effects))
      else some (
        s,
        stopped (
            wrapped "failed to start liquidations import: %w"
              (errorf "failed to subscribe to liquidations")),
        [],
      )
