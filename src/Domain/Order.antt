-- ===== src/Domain/Order.antt =====
-- internal/domain/order.go.
use exchange_data_importer.Prelude.{
  ◌*◌, ◌^◌, String, ◌≡◌, ◌≢◌, ◌↔◌, ◌⊎◌, true, false, ◌&&◌, not, Option, none, some, arith, str_eq,
  eq_iff, if◌then◌else◌,
}
use exchange_data_importer.Prelude.Int.{pos}
use exchange_data_importer.Float.{Float}
use exchange_data_importer.Time.{Time, is_zero}
use exchange_data_importer.Errors.{Error, errorf, validation_error}

-- `OrderSideBuy` and `OrderSideSell`.
abbrev pub order_side_buy : String
order_side_buy = "BUY"

abbrev pub order_side_sell : String
order_side_sell = "SELL"

pub record Order (F : Type 0) : Type 0 where
  pub event_at : Time
  pub symbol : String
  pub side : String
  pub price : F
  pub quantity : F
  pub total_price : F

module _ {F : Type 0} ⦃f : Float F⦄ where
  -- `(o *Order) Validate`.
  unfoldable pub validate : Order F → Option Error
  validate o =
      if is_zero o.event_at
      then some (validation_error "EventAt" (errorf "event time cannot be zero for %s"))
      else if str_eq o.symbol ""
      then some (validation_error "Symbol" (errorf "symbol cannot be empty for %s"))
      else if not (str_eq o.side order_side_buy) && not (str_eq o.side order_side_sell)
      then some (validation_error "Side" (errorf "invalid order side: %s for %s"))
      else if f.le o.price (f.lit (pos 0))
      then some (validation_error "Price" (errorf "price must be greater than 0 for %s"))
      else if f.le o.quantity (f.lit (pos 0))
      then some (validation_error "Quantity" (errorf "quantity must be greater than 0 for %s"))
      else if not (f.eq o.total_price (f.mul o.price o.quantity))
      then some (
          validation_error "TotalPrice"
            (errorf "total price %f does not match price * quantity = %f for %s"))
      else none

  pub record IsSound (o : Order F) : Type 0 where
    pub event_at : o.event_at ≢ 2 ^ 58 * (60 * 10 ^ 9)
    pub symbol : o.symbol ≢ ""
    pub side : (o.side ≡ "BUY") ⊎ (o.side ≡ "SELL")
    pub price : f.le o.price (f.lit (pos 0)) ≡ false
    pub quantity : f.le o.quantity (f.lit (pos 0)) ≡ false
    pub total_price : f.eq o.total_price (f.mul o.price o.quantity) ≡ true

  -- `Validate` accepts an order exactly when its time is set, its symbol is not empty, its side is
  -- BUY or SELL, neither price nor quantity compares as at most 0, and the total is their product.
  pub order_validate-none_iff : (o : Order F) → (validate o ≡ none) ↔ IsSound o
  unfolding validate
  order_validate-none_iff o = (
    (λ h. ground (arith, eq_iff o.symbol "", eq_iff o.side "BUY", eq_iff o.side "SELL")),
    (λ s. ground (arith, eq_iff o.symbol "", eq_iff o.side "BUY", eq_iff o.side "SELL")),
  )
