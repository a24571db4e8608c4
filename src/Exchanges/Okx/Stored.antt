-- ===== src/Exchanges/Okx/Stored.antt =====
-- internal/infrastructure/exchanges/okx and internal/importer: the liquidations of OKX, from the
-- websocket to the repository.
use exchange_data_importer.Prelude.{
  ℕ, String, ◌≤◌, ◌≡◌, ◌⊎◌, refl, inl, inr, Bool, true, false, not, some, List, [], ◌∷◌, arith,
  str_eq, length, All, if◌then◌else◌, Option-cases,
}
use exchange_data_importer.Prelude.Int.{ℤ}
use exchange_data_importer.Float.{Float}
use exchange_data_importer.Errors.{Result, ok, err, bind_ok}
use exchange_data_importer.Domain.Liquidation.{Liquidation}
use exchange_data_importer.Exchanges.{ExchangeLiquidation}
use exchange_data_importer.Exchanges.Channels.{Channels, empty_backlog}
use exchange_data_importer.Exchanges.Session.{Attempt}
use exchange_data_importer.Exchanges.Session.Delivered.{oks, errs, accepted}
use exchange_data_importer.Exchanges.Session.Loop.{stage_of}
use exchange_data_importer.Exchanges.Session.Link.{Finishes, subscription_results}
use exchange_data_importer.Exchanges.Okx.{Detail, LiquidationDto, side_of, first_detail, field_of}
use exchange_data_importer.Exchanges.Okx.Session.{
  Message, link_of, AllDetailed, first_result, detail_results, message_results,
  handle_liquidation_subscription, okx_subscription,
}
use exchange_data_importer.Importer.Liquidations.{
  StreamEvent, Import, handle_events, store_in_memory,
}
use exchange_data_importer.Importer.Stream.{AreReceived, IsStorable}
use exchange_data_importer.Importer.Stream.Subscribed.{
  IsSane, oks-All_append, converted-IsStorable, Stored, subscription-Stored,
}

side_of_either : (side name : String) → side_of side ≡ some name → (name ≡ "BUY") ⊎ (name ≡ "SELL")
unfolding side_of
side_of_either side name h = ground arith

module _ {F : Type 0} ⦃f : Float F⦄ (parse_float : String → Result F)
    (parse_int : String → Result ℤ) where
  first_detail_fields :
      (inst_id : String) (d : Detail) (l : ExchangeLiquidation F)
      → first_detail parse_float parse_int inst_id d ≡ ok l
      → (side_of d.side ≡ some l.side) × (l.total_price ≡ f.mul l.price l.quantity)
  unfolding first_detail
  first_detail_fields inst_id d l h =
      let (price, e1, h1) =
        bind_ok (field_of parse_float parse_int parse_float "invalid price '%s': %w" d.price) _ h in
      let (quantity, e2, h2) =
        bind_ok (field_of parse_float parse_int parse_float "invalid quantity '%s': %w" d.quantity)
          _ h1 in
      let (ts, e3, h3) =
        bind_ok (field_of parse_float parse_int parse_int "invalid timestamp '%s': %w" d.timestamp)
          _ h2 in
      elim (Option-cases (side_of d.side)) [
        | inl none_ ↦ ground arith
        | inr (side, e) ↦ ground arith
      ]

  first_detail-IsStorable :
      (inst_id : String) (d : Detail) (r : Result (ExchangeLiquidation F))
      → first_detail parse_float parse_int inst_id d ≡ r
      → All (λ l. IsSane l → IsStorable l) (oks (r ∷ []))
  first_detail-IsStorable inst_id d (err e) h = tt
  first_detail-IsStorable inst_id d (ok l) h =
      let (side, total) = first_detail_fields inst_id d l h in
      (converted-IsStorable l (side_of_either d.side l.side side) total, tt)

  first_result-IsStorable :
      (inst_id : String) (xs : List Detail) (rest : List (Result (ExchangeLiquidation F)))
      → All (λ l. IsSane l → IsStorable l) (oks rest)
      → All
          (λ l. IsSane l → IsStorable l)
          (oks (first_result parse_float parse_int inst_id xs rest))
  first_result-IsStorable inst_id [] rest h = h
  first_result-IsStorable inst_id (x ∷ xs) rest h =
      let r = first_detail parse_float parse_int inst_id x in
      oks-All_append (λ l. IsSane l → IsStorable l) (r ∷ []) rest
        (first_detail-IsStorable inst_id x r refl) h

  detail_results-IsStorable :
      (ds : List LiquidationDto)
      → All (λ l. IsSane l → IsStorable l) (oks (detail_results parse_float parse_int ds))
  detail_results-IsStorable [] = tt
  detail_results-IsStorable (d ∷ rest) =
      first_result-IsStorable d.inst_id d.details _ (detail_results-IsStorable rest)

  message_results-IsStorable :
      (m : Message)
      → All (λ l. IsSane l → IsStorable l) (oks (message_results parse_float parse_int m))
  message_results-IsStorable (err e) = tt
  message_results-IsStorable (ok event) = go (not (str_eq event.channel "liquidation-orders"))
    where
      go :
          (b : Bool)
          → All
              (λ l. IsSane l → IsStorable l)
              (oks (if b then [] else detail_results parse_float parse_int event.list))
      go true = tt
      go false = detail_results-IsStorable event.list

  -- From the websocket of OKX to the in-memory repository: for attempts whose opened connections
  -- come to an end and whose liquidations all carry a detail, over new channels that take all that
  -- is sent, whose liquidations that convert are sane (a symbol, a time, a price and a quantity
  -- that do not compare as at most 0, a product that is not NaN), and an importer that receives
  -- what is sent, each channel in its order but the two interleaved at will, at set times, until it
  -- reads from the closed channel of errors: the subscription returns without a panic, and the
  -- importer stores exactly those liquidations, each once and in their order, field by field as it
  -- was sent but for the time of storage; and it counts every error that found room in the channel,
  -- whose buffer of a hundred the importer drains meanwhile.
  pub okx_liquidations-Stored :
      (attempts : List (Attempt Message)) (room : ℕ) (drained : List ℕ)
      (s : Import (List (Liquidation F))) (events : List (StreamEvent F))
      → let rs = subscription_results link_of (message_results parse_float parse_int) attempts in
        let taken = accepted (empty_backlog drained) (errs rs) in
        All (Finishes link_of (AllDetailed parse_float parse_int)) attempts
        → length (oks rs) ≤ room
        → All IsSane (oks rs)
        → AreReceived (oks rs) taken events
        → (c : Channels F) × (handle_liquidation_subscription parse_float parse_int attempts
              (record { out = []; errs = []; room = room; backlog = empty_backlog drained })
            ≡ some (c, stage_of attempts))
          × (c.out ≡ oks rs)
          × (c.errs ≡ taken)
          × Stored s (handle_events store_in_memory s events) rs taken
  okx_liquidations-Stored attempts room drained s events ends enough sane received =
      let rs = subscription_results link_of (message_results parse_float parse_int) attempts in
      let (c, e, d) =
        okx_subscription parse_float parse_int attempts
          (record { out = []; errs = []; room = room; backlog = empty_backlog drained }) ends
          (record { enough = enough }) in
      (
        c,
        e,
        d.sent,
        d.failed,
        subscription-Stored link_of (message_results parse_float parse_int)
            message_results-IsStorable attempts (accepted (empty_backlog drained) (errs rs)) s
            events sane received,
      )
