-- ===== src/Exchanges/Bybit/Converted.antt =====
-- internal/infrastructure/exchanges/bybit/domain.go and internal/importer/importer.go: a liquidation
-- on its way from Bybit into the repository.
use exchange_data_importer.Prelude.{
  String, ◌≡◌, sym, ◌∙◌, ◌≢◌, ◌⊎◌, inl, inr, true, false, none, some, arith, Option-cases,
}
use exchange_data_importer.Prelude.Int.{pos}
use exchange_data_importer.Float.{Float}
use exchange_data_importer.Time.{Time, zero_time}
use exchange_data_importer.Errors.{Result, ok, bind_ok}
use exchange_data_importer.Exchanges.{ExchangeLiquidation}
use exchange_data_importer.Exchanges.Bybit.{LiquidationDto, side_of, field_of, to_liquidation}
use exchange_data_importer.Domain.Liquidation.{validate, liquidation_validate-none_iff}
use exchange_data_importer.Importer.Liquidations.{convert_liquidation}

module _ {F : Type 0} ⦃f : Float F⦄ (parse_float : String → Result F) where
  side_of_either :
      (side name : String) → side_of side ≡ some name → (name ≡ "BUY") ⊎ (name ≡ "SELL")
  unfolding side_of
  side_of_either side name h = ground arith

  pub to_liquidation_fields :
      (bl : LiquidationDto) (l : ExchangeLiquidation F)
      → to_liquidation parse_float bl ≡ ok l
      → (side_of bl.side ≡ some l.side)
        × (l.total_price ≡ f.mul l.price l.quantity)
        × (l.symbol ≡ bl.symbol)
  unfolding to_liquidation
  to_liquidation_fields bl l h =
      let (price, e1, h1) = bind_ok (field_of parse_float "invalid price '%s': %w" bl.price) _ h in
      let (quantity, e2, h2) =
        bind_ok (field_of parse_float "invalid quantity '%s': %w" bl.quantity) _ h1 in
      elim (Option-cases (side_of bl.side)) [
        | inl none_ ↦ ground arith
        | inr (side, e) ↦ ground arith
      ]

  -- A liquidation that converts from Bybit's message is one that the importer stores, if its symbol
  -- is not empty, its times are set, its price and quantity do not compare as at most 0, and their
  -- product equals itself (is not NaN): the checks of the side and of the total never refuse it.
  pub bybit_liquidation_valid :
      (bl : LiquidationDto) (l : ExchangeLiquidation F) (now : Time)
      → to_liquidation parse_float bl ≡ ok l
      → bl.symbol ≢ ""
      → l.event_at ≢ zero_time
      → now ≢ zero_time
      → f.le l.price (f.lit (pos 0)) ≡ false
      → f.le l.quantity (f.lit (pos 0)) ≡ false
      → f.eq (f.mul l.price l.quantity) (f.mul l.price l.quantity) ≡ true
      → validate (convert_liquidation l now) ≡ none
  unfolding convert_liquidation
  bybit_liquidation_valid bl l now h s a b p q n =
      let (side, total, symbol) = to_liquidation_fields bl l h in
      (liquidation_validate-none_iff (convert_liquidation l now)).1 (
        a,
        b,
        record {
          event_at = a;
          symbol = λ e. s (sym symbol ∙ e);
          side = side_of_either bl.side l.side side;
          price = p;
          quantity = q;
          total_price = rw total n;
        },
      )
