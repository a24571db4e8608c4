-- ===== src/Domain/Liquidation.antt =====
-- internal/domain/liquidation.go.
use exchange_data_importer.Prelude.{
  ℕ, String, ◌≡◌, ◌≢◌, ◌↔◌, not, Option, none, some, arith, str_eq, eq_iff, if◌then◌else◌,
}
use exchange_data_importer.Float.{Float}
use exchange_data_importer.Time.{Time, is_zero, zero_time}
use exchange_data_importer.Errors.{Error, errorf, validation_error}
use exchange_data_importer.Domain.Order
use exchange_data_importer.Domain.Order.{Order, order_side_buy, order_side_sell}

abbrev pub long_liquidation : String
long_liquidation = "SELL"

abbrev pub short_liquidation : String
short_liquidation = "BUY"

pub record Liquidation (F : Type 0) : Type 0 where
  pub order : Order F
  pub event_at : Time
  pub stored_at : Time

pub record LiquidationsHistory : Type 0 where
  pub long_1s : ℕ
  pub long_2s : ℕ
  pub long_5s : ℕ
  pub long_60s : ℕ
  pub short_1s : ℕ
  pub short_2s : ℕ
  pub short_10s : ℕ

abbrev pub no_liquidations : LiquidationsHistory
no_liquidations = record {
  long_1s = 0;
  long_2s = 0;
  long_5s = 0;
  long_60s = 0;
  short_1s = 0;
  short_2s = 0;
  short_10s = 0;
}

-- The switch of `Validate` on the order's side.
unfoldable pub validate_side : String → Option Error
validate_side side =
    if str_eq side long_liquidation
    then if not (str_eq side order_side_sell)
      then some
          (validation_error "Order.Side" (errorf "long liquidation must have SELL order side"))
      else none
    else if str_eq side short_liquidation
    then if not (str_eq side order_side_buy)
      then some
          (validation_error "Order.Side" (errorf "short liquidation must have BUY order side"))
      else none
    else some (validation_error "Order.Side" (errorf "invalid liquidation type"))

module _ {F : Type 0} ⦃f : Float F⦄ where
  -- `(l *Liquidation) Validate`.
  unfoldable pub validate : Liquidation F → Option Error
  unfolding validate_side
  validate l =
      if is_zero l.event_at
      then some (validation_error "EventAt" (errorf "event time cannot be zero"))
      else if is_zero l.stored_at
      then some (validation_error "StoredAt" (errorf "stored time cannot be zero"))
      else elim (Order.validate l.order) [
        | some e ↦ some (validation_error "Order" e)
        | none ↦ validate_side l.order.side
      ]

  -- The switch on the side never refuses what the order's own rules accepted, so `Validate` accepts
  -- a liquidation exactly when both times are set and its order is sound.
  pub liquidation_validate-none_iff :
      (l : Liquidation F)
      → (validate l ≡ none)
        ↔ ((l.event_at ≢ zero_time) × (l.stored_at ≢ zero_time) × Order.IsSound l.order)
  unfolding validate
  liquidation_validate-none_iff l =
      let (sound, accepted) = Order.order_validate-none_iff l.order in
      (
        (λ h.
            ground (arith, sound, accepted, eq_iff l.order.side "BUY", eq_iff l.order.side "SELL")),
        (λ s.
            ground (arith, sound, accepted, eq_iff l.order.side "BUY", eq_iff l.order.side "SELL")),
      )
