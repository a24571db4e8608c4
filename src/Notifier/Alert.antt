-- ===== src/Notifier/Alert.antt =====
-- internal/notifier/strategies/alert.go. A message is the list of its parts, which the code renders
-- by fmt.Sprintf and joins; the texts themselves are left out.
pub mod Decision
use exchange_data_importer.Prelude.{
  ℕ, String, Bool, ◌||◌, Option, none, some, List, [], ◌∷◌, ◌++◌, ltb, if◌then◌else◌, length,
  get_elem?,
}
use exchange_data_importer.Prelude.Int.{ℤ, pos}
use exchange_data_importer.Prelude.Partial.{◌>>=◌}
use exchange_data_importer.Float.{Float}
use exchange_data_importer.Time.{Time}
use exchange_data_importer.Domain.Ticker.{Ticker, Tick, Heap}

pub record Thresholds (F : Type 0) : Type 0 where
  pub avg_price_1m_change : F
  pub avg_price_20m_change : F
  pub ticker_price_1m_change : F

-- A percentage, with the sign "+" or "".
pub record Signed (F : Type 0) : Type 0 where
  pub plus : Bool
  pub value : F

pub record TickerPart (F : Type 0) : Type 0 where
  pub symbol : String
  pub ask : F
  pub bid : F
  pub change_1m : Option (Signed F)
  pub change_20m : Option (Signed F)
  pub rsi : Option F

pub data Line (F : Type 0) : Type 0 where
  market_move : Signed F → Line F
  price_change_20m : Signed F → Line F
  active_pairs : List (TickerPart F) → Line F
  liquidations : ℕ → ℕ → ℕ → Line F
  overview : ℤ → Signed F → Signed F → Signed F → Signed F → F → F → Line F

module _ {F : Type 0} ⦃f : Float F⦄ where
  abbrev pub signed : F → Signed F
  signed x = record { plus = f.lt (f.lit (pos 0)) x; value = x }

  abbrev pub unless_zero {ℓ} : {A : Type ℓ} → F → A → Option A
  unless_zero x a = if f.eq x (f.lit (pos 0)) then none else some a

  -- `formatTickerAlert`.
  unfoldable pub format_ticker_alert : Ticker F → TickerPart F
  format_ticker_alert t = record {
    symbol = t.symbol;
    ask = t.ask;
    bid = t.bid;
    change_1m = unless_zero t.change_1m (signed t.change_1m);
    change_20m = unless_zero t.change_20m (signed t.change_20m);
    rsi = unless_zero t.rsi20 t.rsi20;
  }

  -- The loop over the tick's tickers.
  unfoldable pub significant : Heap F → F → List (String × ℕ) → Option (List (TickerPart F))
  unfolding format_ticker_alert
  significant h threshold [] = some []
  significant h threshold ((_, p) ∷ rest) = do
    t ← get_elem? h p
    parts ← significant h threshold rest
    some (if f.le threshold (f.abs t.change_1m) then format_ticker_alert t ∷ parts else parts)

  abbrev pub when : Bool → Line F → List (Line F)
  when test line = if test then line ∷ [] else []

  unfoldable pub is_market_move : Thresholds F → Tick F → Bool
  is_market_move th t = f.le th.avg_price_1m_change (f.abs t.avg.change_1m)

  unfoldable pub is_slow_move : Thresholds F → Tick F → Bool
  is_slow_move th t = f.le th.avg_price_20m_change (f.abs t.avg.change_20m)

  unfoldable pub is_liquidation_wave : Tick F → Bool
  is_liquidation_wave t = ltb 500 t.ll5 || ltb 2000 t.ll60 || ltb 30 t.sl10

  unfoldable pub overview_of : Tick F → Line F
  overview_of t =
      overview t.avg.tickers_count (signed t.avg.change_1m) (signed t.avg.change_20m)
        (signed t.avg.ask_change) (signed t.avg.bid_change) t.avg.max10 t.avg.min10

  -- `formatTickAlert` from the significant tickers on: `none` is `("", false)`.
  unfoldable pub alert_lines : Thresholds F → Tick F → List (TickerPart F) → Option (List (Line F))
  unfolding is_market_move is_slow_move is_liquidation_wave overview_of
  alert_lines th t parts =
      let has_alert = is_market_move th t || is_slow_move th t || ltb 0 (length parts) in
      let lines =
        when (is_market_move th t) (market_move (signed t.avg.change_1m))
        ++ when (is_slow_move th t) (price_change_20m (signed t.avg.change_20m))
        ++ when (ltb 0 (length parts)) (active_pairs parts)
        ++ when (is_liquidation_wave t) (liquidations t.ll5 t.ll60 t.sl10) in
      if has_alert then some (lines ++ overview_of t ∷ []) else none

  -- `formatTickAlert`; the outer `none` is a panic, and a nil tick is `none`.
  unfoldable pub format_tick_alert :
      Heap F → Thresholds F → Option (Tick F) → Option (Option (List (Line F)))
  unfolding alert_lines significant
  format_tick_alert h th none = some none
  format_tick_alert h th (some t) = do
    parts ← significant h th.ticker_price_1m_change t.data_
    some (alert_lines th t parts)

-- The event of an alert: its time, its type and its message.
pub record AlertEvent (F : Type 0) : Type 0 where
  pub time : Time
  pub event_type : String
  pub data_ : List (Line F)

module _ {F : Type 0} ⦃f : Float F⦄ where
  -- `(s *AlertStrategy) Format` at the time `now`. A nil tick, or data that is no tick, is `none`.
  unfoldable pub format :
      Heap F → Thresholds F → Time → Option (Tick F) → Option (List (AlertEvent F))
  unfolding format_tick_alert
  format h th now none = some []
  format h th now (some t) = do
    message ← format_tick_alert h th (some t)
    some (elim message [
      | none ↦ []
      | some lines ↦ record { time = now; event_type = "ALERT_MARKET_STATE"; data_ = lines } ∷ []
    ])
