-- ===== src/Importer/Tick.antt =====
-- internal/importer/process_tick.go, process_ticker.go and notify.go: one round of the import.
pub mod SameMinute
pub mod Below
pub mod Averages
pub mod Round
pub mod Workers
use exchange_data_importer.Prelude.{
  ℕ, String, Option, none, some, List, [], ◌∷◌, ◌++◌, length, get_elem?, set,
}
use exchange_data_importer.Prelude.Int.{pos}
use exchange_data_importer.Prelude.Partial.{◌>>=◌}
use exchange_data_importer.Float.{Float}
use exchange_data_importer.Time.{Time, zero_time, sub_time, milliseconds}
use exchange_data_importer.Errors.{Error, errorf, wrapped, Result, ok, err}
use exchange_data_importer.Ring.{Ring}
use exchange_data_importer.Exchanges.{ExchangeTicker}
use exchange_data_importer.Domain.Liquidation.{LiquidationsHistory}
use exchange_data_importer.Domain.Ticker.{Ticker, Tick, Heap, validate, validate_tick, set_ticker}
use exchange_data_importer.Domain.Indicators.{calculate_ticker, calculate_tick}
use exchange_data_importer.Importer.History.{
  TickerHistory, add_ticker_history, get_buffer, add_tick_history, get_last_tick,
}

-- The state of an `Importer`: the heaps of tickers and ticks, and its two histories.
pub record State (F : Type 0) : Type 0 where
  pub tickers : Heap F
  pub ticks : List (Tick F)
  pub tick_history : Ring ℕ
  pub ticker_history : TickerHistory

-- What `importTick` reads from outside: the clock, the exchange's answer, the liquidation
-- repository, which answers with a history beside its error, and the result of storing the tick.
pub record World (F : Type 0) : Type 0 where
  pub start_at : Time
  pub fetched : Result (List (ExchangeTicker F))
  pub fetched_at : Time
  pub liquidations : Time → LiquidationsHistory × Option Error
  pub created_at : Time
  pub handled_at : Time
  pub stored : Option Error

-- What it does to the outside, in order.
pub data Effect (F : Type 0) : Type 0 where
  notified : Tick F → Effect F
  sent_to_repository : Tick F → Effect F

module _ {F : Type 0} ⦃f : Float F⦄ where
  -- The ticker that `buildTicker` allocates.
  unfoldable pub fresh_ticker : Time → ExchangeTicker F → Ticker F
  fresh_ticker start_at e =
      let z = f.lit (pos 0) in
      record {
        symbol = e.symbol;
        event_at = e.event_at;
        created_at = start_at;
        ask = e.ask_price;
        bid = e.bid_price;
        rsi20 = z;
        ask_change = z;
        bid_change = z;
        change_1m = z;
        change_20m = z;
        max = z;
        min = z;
        max10 = z;
        min10 = z;
        max10_diff = z;
        min10_diff = z;
      }

  -- `buildTicker` after the ticker is found valid. The new ticker's address is the heap's length.
  unfoldable pub admit_ticker :
      Heap F → TickerHistory → Option (Tick F) → Ticker F → Option (Heap F × TickerHistory)
  admit_ticker h m last_tick t = do
    (h1, m1) ← add_ticker_history (h ++ t ∷ []) m (length h)
    let (history, m2) = get_buffer m1 t.symbol
    h2 ← calculate_ticker h1 (length h) history last_tick
    some (h2, m2)

  -- `(i *Importer) buildTicker`: the heap and map, and the ticker's address or an error.
  unfoldable pub build_ticker :
      Heap F
      → TickerHistory
      → Time
      → Option (Tick F)
      → ExchangeTicker F
      → Option (Heap F × TickerHistory × Result ℕ)
  build_ticker h m start_at last_tick e =
      let t = fresh_ticker start_at e in
      elim (validate t) [
        | some bad ↦ some (h, m, err (errorf "invalid ticker data: %v"))
        | none ↦ do (h', m') ← admit_ticker h m last_tick t; some (h', m', ok (length h))
      ]

  -- The workers of `buildTick`, which take the tickers in the order of the list, and the loop that
  -- collects their results into the tick's data.
  unfoldable pub build_tickers :
      Heap F
      → TickerHistory
      → Time
      → Option (Tick F)
      → List (ExchangeTicker F)
      → List (String × ℕ)
      → Option (Heap F × TickerHistory × List (String × ℕ))
  build_tickers h m start_at last_tick [] built = some (h, m, built)
  build_tickers h m start_at last_tick (e ∷ rest) built = do
    (h', m', r) ← build_ticker h m start_at last_tick e
    build_tickers h' m' start_at last_tick rest
        (elim r [ err _ ↦ built | ok p ↦ set_ticker built e.symbol p ])

  unfoldable pub set_liquidations : Tick F → LiquidationsHistory → Tick F
  set_liquidations t l = record t {
    ll1 = l.long_1s;
    ll2 = l.long_2s;
    ll5 = l.long_5s;
    ll60 = l.long_60s;
    sl1 = l.short_1s;
    sl2 = l.short_2s;
    sl10 = l.short_10s;
  }

  -- `(i *Importer) buildTick` for the tick `t` at the end of the heap of ticks.
  unfoldable pub build_tick :
      State F
      → Tick F
      → LiquidationsHistory × Option Error
      → List (ExchangeTicker F)
      → Option (State F)
  build_tick s t (history, problem) e_tickers = do
    let p = length s.ticks
    last_tick ← get_last_tick s.ticks s.tick_history
    let t1 = set_liquidations t history
    (h, m, built) ← build_tickers s.tickers s.ticker_history t.start_at last_tick e_tickers t.data_
    let ticks = s.ticks ++ record t1 { data_ = built } ∷ []
    ring ← add_tick_history ticks s.tick_history p
    ticks' ← calculate_tick ticks h p ring
    some (record { tickers = h; ticks = ticks'; tick_history = ring; ticker_history = m })

  -- The tick that `importTick` creates.
  unfoldable pub new_tick : Time → Time → Tick F
  new_tick start_at fetched_at =
      let z = f.lit (pos 0) in
      record {
        start_at = start_at;
        fetched_at = fetched_at;
        created_at = zero_time;
        fetch_duration = milliseconds (sub_time fetched_at start_at);
        handling_duration = pos 0;
        avg_buy10 = z;
        ll1 = 0;
        ll2 = 0;
        ll5 = 0;
        ll60 = 0;
        sl1 = 0;
        sl2 = 0;
        sl10 = 0;
        avg = record {
          change_1m = z;
          change_20m = z;
          max10 = z;
          min10 = z;
          ask_change = z;
          bid_change = z;
          tickers_count = pos 0;
        };
        data_ = [];
      }

  -- The end of `importTick`: validation, notification and storage.
  unfoldable pub deliver : Tick F → Option Error → Option Error × List (Effect F)
  deliver t stored = elim (validate_tick t) [
    | some bad ↦ (some (wrapped "tick validation failed: %w" bad), [])
    | none ↦ elim stored [
      | some bad ↦ (
        some (wrapped "failed to store tick in DB: %w" bad),
        notified t ∷ sent_to_repository t ∷ [],
      )
      | none ↦ (none, notified t ∷ sent_to_repository t ∷ [])
    ]
  ]

  -- `importTick` once the tickers are fetched.
  unfoldable pub import_fetched :
      State F
      → World F
      → List (ExchangeTicker F)
      → Option (State F × Option Error × List (Effect F))
  import_fetched s w e_tickers = do
    let p = length s.ticks
    s1 ← build_tick s (new_tick w.start_at w.fetched_at) (w.liquidations w.start_at) e_tickers
    t ← get_elem? s1.ticks p
    let t' = record t {
      created_at = w.created_at;
      handling_duration = milliseconds (sub_time w.handled_at w.fetched_at);
    }
    let (problem, effects) = deliver t' w.stored
    some (record s1 { ticks = set s1.ticks p t' }, problem, effects)

  -- `(i *Importer) importTick`.
  unfoldable pub import_tick : State F → World F → Option (State F × Option Error × List (Effect F))
  import_tick s w = elim w.fetched [
    | err bad ↦ some (s, some (wrapped "fetchTickers failed: %w" bad), [])
    | ok e_tickers ↦ import_fetched s w e_tickers
  ]
