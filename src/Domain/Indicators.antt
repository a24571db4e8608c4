-- ===== src/Domain/Indicators.antt =====
-- `(t *Ticker) CalculateIndicators` of internal/domain/ticker.go and `(t *Tick) CalculateIndicators`
-- of internal/domain/tick.go, over the heaps that hold the shared tickers and ticks.
pub mod Extremes
pub mod Total
use exchange_data_importer.Prelude.{
  ℕ, zero, suc, ◌+◌, ◌-◌, String, Option, none, some, List, [], ◌∷◌, ltb, leb, if◌then◌else◌,
  get_elem?, set, lookup,
}
use exchange_data_importer.Prelude.Int.{pos, negsuc}
use exchange_data_importer.Prelude.Partial.{◌>>=◌}
use exchange_data_importer.Float.{Float}
use exchange_data_importer.Ring.{Ring, at, len}
use exchange_data_importer.Utils.{round, perc_diff, clamp, calculate_rsi}
use exchange_data_importer.Domain.Ticker.{Ticker, Tick, Heap}

-- The sums of `(t *Tick) CalculateIndicators`.
pub record Sums (F : Type 0) : Type 0 where
  pub sell_diff : F
  pub buy_diff : F
  pub pd : F
  pub pd20 : F
  pub max10 : F
  pub min10 : F
  pub count : F

module _ {F : Type 0} ⦃f : Float F⦄ where
  -- `history.At(i)` read through its pointer.
  unfoldable pub ticker_at : Heap F → Ring ℕ → ℕ → Option (Ticker F)
  ticker_at h history i = do p ← at history (pos i); get_elem? h p

  -- The loop over the last ten tickers, from index `i` on with `n` rounds to go: `(min10, max10)`.
  unfoldable pub extremes : Heap F → Ring ℕ → ℕ → ℕ → F → F → Option (F × F)
  extremes h history i zero lo hi = some (lo, hi)
  extremes h history i (suc n) lo hi = do
    t ← ticker_at h history i
    extremes h history (i + 1) n (if f.lt t.ask lo then t.ask else lo)
        (if f.lt hi t.ask then t.ask else hi)

  -- The bids of `n` tickers from index `i` on.
  unfoldable pub bid_history : Heap F → Ring ℕ → ℕ → ℕ → Option (List F)
  bid_history h history i zero = some []
  bid_history h history i (suc n) = do
    t ← ticker_at h history i
    bids ← bid_history h history (i + 1) n
    some (t.bid ∷ bids)

  -- The part that looks 20 minutes back.
  unfoldable pub long_indicators : Heap F → Ring ℕ → Ticker F → Option (Ticker F)
  long_indicators h history t =
      let count = len history in
      if ltb 21 count
      then (do
        old ← ticker_at h history (count - 21)
        bids ← bid_history h history (count - 20) 20
        some (record t {
          change_20m = perc_diff t.bid old.bid (pos 2);
          rsi20 = round (calculate_rsi bids 20) (pos 1);
        }))
      else some t

  -- The fields that are set from two tickers on. `q` is the address of the previous ticker.
  unfoldable pub indicators : Heap F → Ring ℕ → Ticker F → ℕ → Option (Ticker F)
  indicators h history t q = do
    let count = len history
    before ← ticker_at h history (count - 2)
    (lo, hi) ←
        extremes h history (count - 10) (count - (count - 10)) f.max_float64
          (f.mul (f.lit (negsuc 0)) f.max_float64)
    prev ← get_elem? h q
    long_indicators h history (record t {
      change_1m = perc_diff t.bid before.bid (pos 2);
      max10 = hi;
      min10 = lo;
      max10_diff = perc_diff t.ask hi (pos 2);
      min10_diff = perc_diff t.ask lo (pos 2);
      ask_change = perc_diff t.ask prev.ask (pos 2);
      bid_change = perc_diff t.bid prev.bid (pos 2);
    })

  -- `(t *Ticker) CalculateIndicators`. The fields it writes are not the ones it reads through
  -- `history` or `lastTick`, so the writes are made together at the end. A nil `lastTick` is `none`.
  unfoldable pub calculate_ticker : Heap F → ℕ → Ring ℕ → Option (Tick F) → Option (Heap F)
  calculate_ticker h p history none = some h
  calculate_ticker h p history (some last_tick) = do
    t ← get_elem? h p
    elim (lookup t.symbol last_tick.data_) [
      | none ↦ some h
      | some q ↦
          if ltb (len history) 2
          then some h
          else do t' ← indicators h history t q; some (set h p t')
    ]

  abbrev pub no_sums : Sums F
  no_sums =
      let z = f.lit (pos 0) in
      record { sell_diff = z; buy_diff = z; pd = z; pd20 = z; max10 = z; min10 = z; count = z }

  unfoldable pub add_sums : Sums F → Ticker F → Ticker F → Sums F
  add_sums s cur prev =
      let one = f.lit (pos 1) in
      let minus = f.lit (negsuc 0) in
      record {
        sell_diff = f.add s.sell_diff (clamp (perc_diff cur.bid prev.bid (pos 2)) minus one);
        buy_diff = f.add s.buy_diff (clamp (perc_diff cur.ask prev.ask (pos 2)) minus one);
        pd = f.add s.pd cur.change_1m;
        pd20 = f.add s.pd20 cur.change_20m;
        max10 = f.add s.max10 (perc_diff cur.ask cur.max10 (negsuc 0));
        min10 = f.add s.min10 (perc_diff cur.ask cur.min10 (negsuc 0));
        count = f.add s.count one;
      }

  -- The loop over the tick's tickers. The order of a Go map is that of the list here.
  unfoldable pub sum_tickers :
      Heap F → List (String × ℕ) → List (String × ℕ) → Sums F → Option (Sums F)
  sum_tickers h [] prev s = some s
  sum_tickers h ((_, p) ∷ rest) prev s = do
    cur ← get_elem? h p
    let skipped = sum_tickers h rest prev s
    elim (lookup cur.symbol prev) [
      | none ↦ skipped
      | some q ↦ do old ← get_elem? h q; sum_tickers h rest prev (add_sums s cur old)
    ]

  -- `history.At(i)` of the ticks, read through its pointer.
  unfoldable pub tick_at : List (Tick F) → Ring ℕ → ℕ → Option (Tick F)
  tick_at ticks history i = do p ← at history (pos i); get_elem? ticks p

  unfoldable pub sum_ask_changes : List (Tick F) → Ring ℕ → ℕ → ℕ → F → Option F
  sum_ask_changes ticks history i zero sum = some sum
  sum_ask_changes ticks history i (suc n) sum = do
    t ← tick_at ticks history i
    sum_ask_changes ticks history (i + 1) n (f.add sum t.avg.ask_change)

  -- The average buy price over the last ten ticks.
  unfoldable pub set_avg_buy10 : List (Tick F) → Ring ℕ → Tick F → Option (Tick F)
  set_avg_buy10 ticks history t =
      if leb 10 (len history)
      then (do
        sum ← sum_ask_changes ticks history (len history - 10) 10 (f.lit (pos 0))
        some (record t { avg_buy10 = round (f.div sum (f.lit (pos 10))) (pos 6) }))
      else some t

  unfoldable pub set_averages : Tick F → Sums F → Tick F
  set_averages t s =
      if f.lt (f.lit (pos 0)) s.count
      then record t {
        avg = record {
          bid_change = round (f.div s.sell_diff s.count) (pos 4);
          ask_change = round (f.div s.buy_diff s.count) (pos 4);
          change_1m = round (f.div s.pd s.count) (pos 2);
          change_20m = round (f.div s.pd20 s.count) (pos 2);
          max10 = round (f.div s.max10 s.count) (pos 2);
          min10 = round (f.div s.min10 s.count) (pos 2);
          tickers_count = f.to_int16 s.count;
        };
      }
      else t

  -- `(t *Tick) CalculateIndicators`.
  unfoldable pub calculate_tick : List (Tick F) → Heap F → ℕ → Ring ℕ → Option (List (Tick F))
  calculate_tick ticks h p history = if ltb (len history) 2 then some ticks else do
    prev ← tick_at ticks history (len history - 2)
    t ← get_elem? ticks p
    t1 ← set_avg_buy10 ticks history t
    s ← sum_tickers h t.data_ prev.data_ no_sums
    some (set ticks p (set_averages t1 s))
