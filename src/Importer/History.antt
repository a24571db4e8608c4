-- ===== src/Importer/History.antt =====
-- internal/importer/history_structs.go and history_manager.go: the ring buffers of recent ticks and
-- of the tickers of each minute. The methods of the map hold its lock, so each is one step.
use exchange_data_importer.Prelude.{
  ℕ, String, not, Option, none, some, List, if◌then◌else◌, get_elem?, set, lookup, insert,
}
use exchange_data_importer.Prelude.Partial.{◌>>=◌}
use exchange_data_importer.Float.{Float}
use exchange_data_importer.Time.{after, same_time, truncate, minute}
use exchange_data_importer.Ring.{Ring, new, push, last}
use exchange_data_importer.Domain.Ticker.{Ticker, Tick, Heap, max_tick_history}

-- `tickerHistoryMap`. Its buffers hold pointers; the zero value that fills a new one is never read.
abbrev pub TickerHistory : Type 0
TickerHistory = List (String × Ring ℕ)

abbrev pub nil_pointer : ℕ
nil_pointer = 0

unfoldable pub new_buffer : Ring ℕ
new_buffer = new max_tick_history nil_pointer

-- `getOrCreateBuffer`: the buffer, and the map that holds it.
unfoldable pub get_or_create_buffer : TickerHistory → String → Ring ℕ × TickerHistory
unfolding new_buffer
get_or_create_buffer m name = elim (lookup name m) [
  | some history ↦ (history, m)
  | none ↦ (new_buffer, insert name new_buffer m)
]

-- `Get`. Its second look under the write lock finds what the first one did, since it is one step.
unfoldable pub get_buffer : TickerHistory → String → Ring ℕ × TickerHistory
get_buffer m name = get_or_create_buffer m name

module _ {F : Type 0} ⦃f : Float F⦄ where
  -- The two halves of `updateMinuteData`: what is merged into the existing ticker, and what is copied
  -- back to the new one.
  unfoldable pub merge : Ticker F → Ticker F → Ticker F
  merge old new_ = record old {
    max = f.max_of old.max new_.ask;
    min = f.min_of old.min new_.ask;
    ask = new_.ask;
    bid = new_.bid;
    created_at = new_.created_at;
  }

  unfoldable pub mirror : Ticker F → Ticker F → Ticker F
  mirror new_ merged = record new_ { max = merged.max; min = merged.min }

  -- `updateMinuteData(existingTicker, newTicker)` at the addresses `p` and `q`.
  unfoldable pub update_minute_data : Heap F → ℕ → ℕ → Option (Heap F)
  update_minute_data h p q = do
    old ← get_elem? h p
    new_ ← get_elem? h q
    let h1 = set h p (merge old new_)
    new' ← get_elem? h1 q
    some (set h1 q (mirror new' (merge old new_)))

  -- A new minute: the ticker becomes the newest entry of its buffer.
  unfoldable pub new_minute :
      Heap F → TickerHistory → Ring ℕ → ℕ → Ticker F → Option (Heap F × TickerHistory)
  new_minute h m history p t = do
    history' ← push history p
    some (set h p (record t { max = t.ask; min = t.ask }), insert t.symbol history' m)

  -- `UpdateTicker` from its first test on, where the buffer's newest ticker is `old` at `q`.
  unfoldable pub update_old :
      Heap F
      → TickerHistory
      → Ring ℕ
      → ℕ
      → Ticker F
      → ℕ
      → Ticker F
      → Option (Heap F × TickerHistory)
  update_old h m history p t q old =
      if after old.created_at t.created_at
      then some (h, m)
      else if not (same_time (truncate old.created_at minute) (truncate t.created_at minute))
      then new_minute h m history p t
      else if after old.created_at t.created_at
      then some (h, m)
      else (do h' ← update_minute_data h q p; some (h', m))

  -- The same where the buffer may be empty.
  unfoldable pub update_last :
      Heap F → TickerHistory → Ring ℕ → ℕ → Ticker F → Option ℕ → Option (Heap F × TickerHistory)
  update_last h m history p t none = new_minute h m history p t
  update_last h m history p t (some q) = do old ← get_elem? h q; update_old h m history p t q old

  -- `(thm *tickerHistoryMap) UpdateTicker`.
  unfoldable pub update_ticker : Heap F → TickerHistory → ℕ → Option (Heap F × TickerHistory)
  update_ticker h m p = do
    t ← get_elem? h p
    let (history, m') = get_or_create_buffer m t.symbol
    q ← last history
    update_last h m' history p t q

  -- `addTickerHistory`.
  abbrev pub add_ticker_history : Heap F → TickerHistory → ℕ → Option (Heap F × TickerHistory)
  add_ticker_history = update_ticker

  -- `addTickHistory`: a tick that starts before the newest one is left out.
  unfoldable pub add_tick_history : List (Tick F) → Ring ℕ → ℕ → Option (Ring ℕ)
  add_tick_history ticks history p = do
    tick ← get_elem? ticks p
    newest ← last history
    elim newest [
      | none ↦ push history p
      | some q ↦ do
        last_tick ← get_elem? ticks q
        if after last_tick.start_at tick.start_at then some history else push history p
    ]

  -- `getLastTick`: the inner `none` is the error "no tick history found".
  unfoldable pub get_last_tick : List (Tick F) → Ring ℕ → Option (Option (Tick F))
  get_last_tick ticks history = do
    newest ← last history
    elim newest [ none ↦ some none | some q ↦ do t ← get_elem? ticks q; some (some t) ]
