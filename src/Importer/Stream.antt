-- ===== src/Importer/Stream.antt =====
-- internal/importer/importer.go: the import of liquidations over the two channels of a subscription.
pub mod Subscribed
use exchange_data_importer.Prelude.{
  ◌≡◌, ◌≢◌, refl, ap, ◌∙◌, none, List, [], ◌∷◌, map, All, arith, length,
}
use exchange_data_importer.Time.{Time, zero_time}
use exchange_data_importer.Float.{Float}
use exchange_data_importer.Errors.{Error}
use exchange_data_importer.Exchanges.{ExchangeLiquidation}
use exchange_data_importer.Domain.Liquidation.{Liquidation, validate}
use exchange_data_importer.Importer.Liquidations.{
  StreamEvent, received, failed, out_closed, convert_liquidation,
}
use exchange_data_importer.Importer.Imported.{valid_ones, failures}

module _ {F : Type 0} where
  -- The importer received all of what was sent on the two channels: each in its order, the two
  -- interleaved as its `select` chose, at times that its clock gave; once the liquidations are drained
  -- it may read from their closed channel. The run is up to the first read from the closed channel of
  -- errors.
  pub data AreReceived
      : List (ExchangeLiquidation F) → List Error → List (StreamEvent F) → Type 0 where
    nothing : AreReceived [] [] []
    takes :
        (l : ExchangeLiquidation F) (now : Time) (ls : List (ExchangeLiquidation F))
        (es : List Error) (events : List (StreamEvent F))
        → now ≢ zero_time
        → AreReceived ls es events
        → AreReceived (l ∷ ls) es (received l now ∷ events)
    fails :
        (e : Error) (ls : List (ExchangeLiquidation F)) (es : List Error)
        (events : List (StreamEvent F))
        → AreReceived ls es events
        → AreReceived ls (e ∷ es) (failed e ∷ events)
    reads_closed :
        (now : Time) (es : List Error) (events : List (StreamEvent F))
        → AreReceived [] es events
        → AreReceived [] es (out_closed now ∷ events)

  -- A liquidation but for the time at which it was stored.
  abbrev pub unstored : Liquidation F → Liquidation F
  unstored l = record l { stored_at = zero_time }

module _ {F : Type 0} ⦃f : Float F⦄ where
  -- The domain's form of a liquidation, field by field, but for the time at which it is stored.
  abbrev pub domain_of : ExchangeLiquidation F → Liquidation F
  domain_of l = record {
    order = record {
      symbol = l.symbol;
      event_at = l.event_at;
      side = l.side;
      price = l.price;
      quantity = l.quantity;
      total_price = l.total_price;
    };
    event_at = l.event_at;
    stored_at = zero_time;
  }

  -- A liquidation that is valid whenever it is converted.
  abbrev pub IsStorable : ExchangeLiquidation F → Type 0
  IsStorable l = (now : Time) → now ≢ zero_time → validate (convert_liquidation l now) ≡ none

  valid_ones-cons :
      (l : ExchangeLiquidation F) (now : Time) (rest : List (StreamEvent F))
      → validate (convert_liquidation l now) ≡ none
      → valid_ones (received l now ∷ rest) ≡ convert_liquidation l now ∷ valid_ones rest
  valid_ones-cons l now rest e = rw (e, valid_ones)

  pub valid_ones_received :
      (ls : List (ExchangeLiquidation F)) (es : List Error) (events : List (StreamEvent F))
      → AreReceived ls es events
      → All IsStorable ls
      → map unstored (valid_ones events) ≡ map domain_of ls
  unfolding convert_liquidation
  valid_ones_received _ _ _ nothing h = refl
  valid_ones_received _ _ _ (takes l now ls es events n r) h =
      ap (map unstored) (valid_ones-cons l now events (h.0 now n))
      ∙ ap (λ x. domain_of l ∷ x) (valid_ones_received ls es events r h.1)
  valid_ones_received _ _ _ (fails e ls es events r) h = valid_ones_received ls es events r h
  valid_ones_received _ _ _ (reads_closed now es events r) h = valid_ones_received [] es events r h

  pub failures_received :
      (ls : List (ExchangeLiquidation F)) (es : List Error) (events : List (StreamEvent F))
      → AreReceived ls es events
      → failures events ≡ length es
  failures_received _ _ _ nothing = refl
  failures_received _ _ _ (takes l now ls es events n r) = failures_received ls es events r
  failures_received _ _ _ (fails e ls es events r) =
      let ih = failures_received ls es events r in omega (arith, ih)
  failures_received _ _ _ (reads_closed now es events r) = failures_received [] es events r
