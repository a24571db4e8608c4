-- ===== src/Domain/Ticker.antt =====
-- internal/domain/ticker.go and internal/domain/tick.go: the records and `Validate`.
use exchange_data_importer.Prelude.{
  ℕ, String, ◌≡◌, ◌≢◌, ◌↔◌, true, false, Option, none, some, List, arith, str_eq, eq_iff,
  if◌then◌else◌, insert,
}
use exchange_data_importer.Prelude.Int.{ℤ, pos}
use exchange_data_importer.Float.{Float, IsOrdered}
use exchange_data_importer.Time.{Time, is_zero, zero_time}
use exchange_data_importer.Errors.{Error, errorf, validation_error}

-- `MaxTickHistory`.
abbrev pub max_tick_history : ℕ
max_tick_history = 25

pub record Ticker (F : Type 0) : Type 0 where
  pub symbol : String
  pub event_at : Time
  pub created_at : Time
  pub ask : F
  pub bid : F
  pub rsi20 : F
  pub ask_change : F
  pub bid_change : F
  pub change_1m : F
  pub change_20m : F
  pub max : F
  pub min : F
  pub max10 : F
  pub min10 : F
  pub max10_diff : F
  pub min10_diff : F

pub record TickAvg (F : Type 0) : Type 0 where
  pub change_1m : F
  pub change_20m : F
  pub max10 : F
  pub min10 : F
  pub ask_change : F
  pub bid_change : F
  pub tickers_count : ℤ

-- A `*Ticker` is an address in the heap of tickers: an index of the list. The map `Data` sends names
-- to addresses; a nil map is read as the empty one.
pub record Tick (F : Type 0) : Type 0 where
  pub start_at : Time
  pub fetched_at : Time
  pub created_at : Time
  pub fetch_duration : ℤ
  pub handling_duration : ℤ
  pub avg_buy10 : F
  pub ll1 : ℕ
  pub ll2 : ℕ
  pub ll5 : ℕ
  pub ll60 : ℕ
  pub sl1 : ℕ
  pub sl2 : ℕ
  pub sl10 : ℕ
  pub avg : TickAvg F
  pub data_ : List (String × ℕ)

abbrev pub Heap : Type 0 → Type 0
Heap F = List (Ticker F)

-- `(t *Tick) SetTicker`, on the map of the tick, for the ticker at `p`.
unfoldable pub set_ticker : List (String × ℕ) → String → ℕ → List (String × ℕ)
set_ticker data_ symbol p = insert symbol p data_

-- `(t *Tick) Validate`.
unfoldable pub validate_tick : {F : Type 0} → Tick F → Option Error
validate_tick t =
    if is_zero t.start_at
    then some (validation_error "StartAt" (errorf "start time cannot be zero"))
    else if is_zero t.fetched_at
    then some (validation_error "FetchedAt" (errorf "fetched time cannot be zero"))
    else if is_zero t.created_at
    then some (validation_error "CreatedAt" (errorf "created time cannot be zero"))
    else none

module _ {F : Type 0} ⦃f : Float F⦄ where
  -- `(t *Ticker) Validate`.
  unfoldable pub validate : Ticker F → Option Error
  validate t =
      if str_eq t.symbol ""
      then some (validation_error "Symbol" (errorf "symbol cannot be empty"))
      else if is_zero t.event_at
      then some (validation_error "EventAt" (errorf "event time cannot be zero"))
      else if is_zero t.created_at
      then some (validation_error "CreatedAt" (errorf "created time cannot be zero"))
      else if f.le t.ask (f.lit (pos 0))
      then some (validation_error "Ask" (errorf "ask price must be greater than 0"))
      else if f.le t.bid (f.lit (pos 0))
      then some (validation_error "Bid" (errorf "bid price must be greater than 0"))
      else if f.le t.ask t.bid
      then some
          (validation_error "Bid/Ask" (errorf "bid price (%f) must be less than ask price (%f)"))
      else none

  module _ (laws : IsOrdered F) where
    open laws use {num_of_le, lt-eq-not-le, le_total}

    -- What `Validate` accepts with two numbers for prices has a positive spread over positive
    -- prices, if the constant 0 is a number.
    pub validate_numbers :
        (t : Ticker F)
        → f.le (f.lit (pos 0)) (f.lit (pos 0)) ≡ true
        → f.le t.ask t.ask ≡ true
        → f.le t.bid t.bid ≡ true
        → validate t ≡ none
        → (f.lt (f.lit (pos 0)) t.bid ≡ true)
          × (f.lt t.bid t.ask ≡ true)
          × (f.lt (f.lit (pos 0)) t.ask ≡ true)
    unfolding validate
    validate_numbers t z a b h = ground (
      arith,
      lt-eq-not-le (f.lit (pos 0)) t.bid,
      lt-eq-not-le t.bid t.ask,
      lt-eq-not-le (f.lit (pos 0)) t.ask,
    )

    -- A price that is NaN passes every check on prices: with a symbol and both times set, a ticker
    -- whose ask is NaN is accepted exactly when its bid does not compare as at most 0.
    pub validate_nan_ask :
        (t : Ticker F)
        → f.le t.ask t.ask ≡ false
        → t.symbol ≢ ""
        → t.event_at ≢ zero_time
        → t.created_at ≢ zero_time
        → (validate t ≡ none) ↔ (f.le t.bid (f.lit (pos 0)) ≡ false)
    unfolding validate
    validate_nan_ask t n s e c = (
      (λ h. ground arith),
      (λ h.
          ground
            (arith, eq_iff t.symbol "", num_of_le t.ask (f.lit (pos 0)), num_of_le t.ask t.bid)),
    )
