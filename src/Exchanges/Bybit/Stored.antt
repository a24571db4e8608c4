-- ===== src/Exchanges/Bybit/Stored.antt =====
-- internal/infrastructure/exchanges/bybit and internal/importer: the liquidations of Bybit, from the
-- websocket to the repository.
use exchange_data_importer.Prelude.{
  ℕ, String, ◌≤◌, ◌≡◌, refl, ◌∙◌, Bool, true, false, not, some, List, [], ◌∷◌, starts_with, length,
  All, if◌then◌else◌,
}
use exchange_data_importer.Float.{Float}
use exchange_data_importer.Errors.{Result, ok, err}
use exchange_data_importer.Domain.Liquidation.{Liquidation}
use exchange_data_importer.Exchanges.{ExchangeLiquidation}
use exchange_data_importer.Exchanges.Channels.{Channels, empty_backlog}
use exchange_data_importer.Exchanges.Session.{Attempt}
use exchange_data_importer.Exchanges.Session.Delivered.{oks, errs, accepted}
use exchange_data_importer.Exchanges.Session.Loop.{stage_of}
use exchange_data_importer.Exchanges.Session.Link.{Finishes, subscription_results}
use exchange_data_importer.Exchanges.Bybit.{to_liquidation}
use exchange_data_importer.Exchanges.Bybit.Converted.{
  bybit_liquidation_valid, to_liquidation_fields,
}
use exchange_data_importer.Exchanges.Bybit.Session.{
  Message, link_of, message_results, handle_liquidation_subscription, bybit_subscription,
}
use exchange_data_importer.Importer.Liquidations.{
  StreamEvent, Import, handle_events, store_in_memory,
}
use exchange_data_importer.Importer.Stream.Subscribed.{IsSane, Stored, subscription-Stored}
use exchange_data_importer.Importer.Stream.{AreReceived, IsStorable}

module _ {F : Type 0} ⦃f : Float F⦄ (parse_float : String → Result F) where
  message_results-IsStorable :
      (m : Message) → All (λ l. IsSane l → IsStorable l) (oks (message_results parse_float m))
  message_results-IsStorable (err e) = tt
  message_results-IsStorable (ok event) = go (not (starts_with event.topic "liquidation"))
    where
      one :
          (r : Result (ExchangeLiquidation F))
          → to_liquidation parse_float event.body ≡ r
          → All (λ l. IsSane l → IsStorable l) (oks (r ∷ []))
      one (err e) h = tt
      one (ok l) h = (
        (λ sane now n.
            bybit_liquidation_valid parse_float event.body l now h
              (λ e. sane.symbol ((to_liquidation_fields parse_float event.body l h).2 ∙ e))
              sane.event_at n sane.price sane.quantity sane.product),
        tt,
      )

      go :
          (b : Bool)
          → All
              (λ l. IsSane l → IsStorable l)
              (oks (if b then [] else to_liquidation parse_float event.body ∷ []))
      go true = tt
      go false = one (to_liquidation parse_float event.body) refl

  -- From the websocket of Bybit to the in-memory repository: for attempts whose opened connections
  -- come to an end, over new channels that take all that is sent, whose liquidations that convert
  -- are sane (a symbol, a time, a price and a quantity that do not compare as at most 0, a product
  -- that is not NaN), and an importer that receives what is sent, each channel in its order but the
  -- two interleaved at will, at set times, until it reads from the closed channel of errors: the
  -- subscription returns without a panic, and the importer stores exactly those liquidations, each
  -- once and in their order, field by field as it was sent but for the time of storage; and it
  -- counts every error that found room in the channel, whose buffer of a hundred the importer
  -- drains meanwhile.
  pub bybit_liquidations-Stored :
      (attempts : List (Attempt Message)) (room : ℕ) (drained : List ℕ)
      (s : Import (List (Liquidation F))) (events : List (StreamEvent F))
      → let rs = subscription_results link_of (message_results parse_float) attempts in
        let taken = accepted (empty_backlog drained) (errs rs) in
        All (Finishes link_of (λ m. Unit)) attempts
        → length (oks rs) ≤ room
        → All IsSane (oks rs)
        → AreReceived (oks rs) taken events
        → (c : Channels F) × (handle_liquidation_subscription parse_float attempts
              (record { out = []; errs = []; room = room; backlog = empty_backlog drained })
            ≡ some (c, stage_of attempts))
          × (c.out ≡ oks rs)
          × (c.errs ≡ taken)
          × Stored s (handle_events store_in_memory s events) rs taken
  bybit_liquidations-Stored attempts room drained s events ends enough sane received =
      let rs = subscription_results link_of (message_results parse_float) attempts in
      let (c, e, d) =
        bybit_subscription parse_float attempts
          (record { out = []; errs = []; room = room; backlog = empty_backlog drained }) ends
          (record { enough = enough }) in
      (
        c,
        e,
        d.sent,
        d.failed,
        subscription-Stored link_of (message_results parse_float) message_results-IsStorable
            attempts (accepted (empty_backlog drained) (errs rs)) s events sane received,
      )
