-- ===== src/Exchanges/Okx/Session.antt =====
-- internal/infrastructure/exchanges/okx/client.go: the subscription to liquidations. What the
-- websocket and the context gave is a parameter.
use exchange_data_importer.Prelude.{
  String, ◌≡◌, refl, ◌∙◌, ◌≢◌, Bool, true, false, not, Option, none, some, List, [], ◌∷◌, arith,
  str_eq, ◌==◌, if◌then◌else◌, length, All,
}
use exchange_data_importer.Float.{Float}
use exchange_data_importer.Errors.{Error, wrapped, Result, ok, err}
use exchange_data_importer.Exchanges.{ExchangeLiquidation}
use exchange_data_importer.Exchanges.Channels.{Channels, send_error, send_liquidation}
use exchange_data_importer.Exchanges.Session.{
  Status, returned, Attempt, Stage, read_messages, handle_subscription,
}
use exchange_data_importer.Exchanges.Session.Delivered.{
  Delivers, Takes, Delivers-nil, send_error-Delivers, send_liquidation-Delivers, Delivers-append,
  Takes-left, Takes-right,
}
use exchange_data_importer.Exchanges.Session.Loop.{Sends, stage_of}
use exchange_data_importer.Exchanges.Session.Link.{
  Link, idle, broken, opened, follow, Finishes, subscription_results, subscription-Sends,
}
use exchange_data_importer.Prelude.Int.{ℤ}
use exchange_data_importer.Exchanges.Okx.Safety.{HasDetails}
use exchange_data_importer.Exchanges.Okx.{
  LiquidationEvent, LiquidationDto, Detail, first_detail, to_liquidation, send_all, process_message,
}

-- The arguments of the subscription: the channel and the type of its instruments.
abbrev liquidation_orders : List String
liquidation_orders = "liquidation-orders" ∷ "SWAP" ∷ []

abbrev pub Message : Type 0
Message = Result LiquidationEvent

-- What became of a connection before the first read.
abbrev pub link_of : Attempt Message → Link
link_of a = elim a.dial [
  | some e ↦ broken (wrapped "websocket dial: %w" e)
  | none ↦
      if length a.available_tickers == 0 then idle else elim (a.write_json (liquidation_orders)) [
        | some e ↦ broken (wrapped "subscribing to liquidation channel: %w" e)
        | none ↦ opened
      ]
]

module _ {F : Type 0} ⦃f : Float F⦄ (parse_float : String → Result F)
    (parse_int : String → Result ℤ) where
  abbrev process : Message → Channels F → Option (Channels F × Option Error)
  process m c = process_message parse_float parse_int m c

  -- `connectAndHandle`: nothing is subscribed to while no ticker is known.
  unfoldable pub connect_and_handle : Attempt Message → Channels F → Option (Channels F × Status)
  unfolding read_messages
  connect_and_handle a c = elim a.dial [
    | some e ↦ some (c, returned (some (wrapped "websocket dial: %w" e)))
    | none ↦
        if length a.available_tickers == 0
        then some (c, returned none)
        else elim (a.write_json (liquidation_orders)) [
          | some e ↦ some (c, returned (some (wrapped "subscribing to liquidation channel: %w" e)))
          | none ↦ read_messages process a.reads c
        ]
  ]

  -- `handleLiquidationSubscription`.
  unfoldable pub handle_liquidation_subscription :
      List (Attempt Message) → Channels F → Option (Channels F × Stage)
  unfolding handle_subscription
  handle_liquidation_subscription attempts c = handle_subscription connect_and_handle attempts c

  -- The results of the liquidations of one message, of which only the first detail is read.
  abbrev pub first_result :
      String
      → List Detail
      → List (Result (ExchangeLiquidation F))
      → List (Result (ExchangeLiquidation F))
  first_result inst_id [] rest = rest
  first_result inst_id (x ∷ xs) rest = first_detail parse_float parse_int inst_id x ∷ rest

  abbrev pub detail_results : List LiquidationDto → List (Result (ExchangeLiquidation F))
  detail_results [] = []
  detail_results (d ∷ rest) = first_result d.inst_id d.details (detail_results rest)

  abbrev pub message_results : Message → List (Result (ExchangeLiquidation F))
  message_results (err e) = err e ∷ []
  message_results (ok event) =
      if not (str_eq event.channel "liquidation-orders") then [] else detail_results event.list

  -- Every liquidation of a message carries a detail.
  abbrev pub AllDetailed : Message → Type 0
  AllDetailed (err e) = Unit
  AllDetailed (ok event) = All HasDetails event.list

  abbrev sends_all : List LiquidationDto → Channels F → Option (Channels F × Option Error)
  sends_all ds c = send_all parse_float parse_int ds c

  send_all-ok :
      (d : LiquidationDto) (x : Detail) (xs : List Detail) (rest : List LiquidationDto)
      (c c' : Channels F) (l : ExchangeLiquidation F)
      → d.details ≡ x ∷ xs
      → first_detail parse_float parse_int d.inst_id x ≡ ok l
      → send_liquidation c l ≡ (c', none)
      → sends_all (d ∷ rest) c ≡ sends_all rest c'
  unfolding send_all to_liquidation
  send_all-ok d x xs rest c c' l e e' e'' = cc (e, e', e'')

  send_all-err :
      (d : LiquidationDto) (x : Detail) (xs : List Detail) (rest : List LiquidationDto)
      (c : Channels F) (problem : Error)
      → d.details ≡ x ∷ xs
      → first_detail parse_float parse_int d.inst_id x ≡ err problem
      → sends_all (d ∷ rest) c ≡ sends_all rest (send_error c problem)
  unfolding send_all to_liquidation
  send_all-err d x xs rest c problem e e' = cc (e, e')

  -- One liquidation, given that the others are sent.
  send_first-Sends :
      (d : LiquidationDto) (rest : List LiquidationDto)
      (tail : List (Result (ExchangeLiquidation F))) (c : Channels F)
      → ((c' : Channels F) → Takes tail c' → Sends (sends_all rest) tail c')
      → (l : List Detail) → d.details ≡ l
      → l ≢ []
      → Takes (first_result d.inst_id l tail) c
      → Sends (sends_all (d ∷ rest)) (first_result d.inst_id l tail) c
  send_first-Sends d rest tail c others [] e h t = absurd (h refl)
  send_first-Sends d rest tail c others (x ∷ xs) e h t =
      go (first_detail parse_float parse_int d.inst_id x) refl t
    where
      go :
          (r : Result (ExchangeLiquidation F))
          → first_detail parse_float parse_int d.inst_id x ≡ r
          → Takes (r ∷ tail) c
          → Sends (sends_all (d ∷ rest)) (r ∷ tail) c
      go (ok l) e' t =
          let (c', sent, h) = send_liquidation-Delivers c l (Takes-left (ok l ∷ []) tail c t) in
          let (c'', p, next, k) = others c' (Takes-right {rs = ok l ∷ []} t h) in
          (c'', p, send_all-ok d x xs rest c c' l e e' sent ∙ next, Delivers-append h k)
      go (err problem) e' t =
          let h = send_error-Delivers c problem (Takes-left (err problem ∷ []) tail c t) in
          let (c'', p, next, k) = others _ (Takes-right {rs = err problem ∷ []} t h) in
          (c'', p, send_all-err d x xs rest c problem e e' ∙ next, Delivers-append h k)

  orders-Sends :
      (ds : List LiquidationDto)
      → All HasDetails ds
      → (c : Channels F) → Takes (detail_results ds) c
      → Sends (sends_all ds) (detail_results ds) c
  orders-Sends [] h c t = (c, none, unfold send_all in refl, Delivers-nil c t)
  orders-Sends (d ∷ rest) h c t =
      send_first-Sends d rest (detail_results rest) c (orders-Sends rest h.1) d.details refl h.0 t

  process_message-Sends :
      (m : Message)
      → AllDetailed m
      → (c : Channels F) → Takes (message_results m) c
      → Sends (process m) (message_results m) c
  unfolding process_message
  process_message-Sends (err e) p c t = (_, _, refl, send_error-Delivers c e t)
  process_message-Sends (ok event) p c t = go (not (str_eq event.channel "liquidation-orders")) t
    where
      listed :
          (l : List LiquidationDto)
          → All HasDetails l
          → Takes (detail_results l) c
          → Sends
              (λ c. if length l == 0 then some (c, none) else sends_all l c)
              (detail_results l)
              c
      listed [] h t = (c, none, refl, Delivers-nil c t)
      listed (d ∷ rest) h t =
          let nonempty : (length (d ∷ rest) == 0) ≡ false = ground arith in
          rw nonempty (orders-Sends (d ∷ rest) h c t)

      go :
          (b : Bool)
          → Takes (if b then [] else detail_results event.list) c
          → Sends
              (λ c.
                if b
                then some (c, none)
                else if length event.list == 0
                then some (c, none)
                else sends_all event.list c)
              (if b then [] else detail_results event.list)
              c
      go true t = (c, none, refl, Delivers-nil c t)
      go false t = listed event.list p t

  pub connect_and_handle-follow :
      (a : Attempt Message) (c : Channels F)
      → connect_and_handle a c ≡ follow process (link_of a) a.reads c
  unfolding connect_and_handle
  connect_and_handle-follow a c = ground arith

  -- For attempts whose opened connections come to an end (the context ends, a deadline cannot be
  -- set or a read fails), whose liquidations all carry a detail, and whose liquidations the context
  -- leaves time to send, OKX's subscription returns without a panic; it sends exactly the
  -- liquidations that convert, in order; on the error channel, as far as they find room in its
  -- buffer of a hundred, out of which the importer takes errors meanwhile, the errors of the
  -- messages that do not and the error that ended each connection; and it closes its channels if
  -- and only if the context has ended after one of the attempts, whatever would come after that.
  pub okx_subscription :
      (attempts : List (Attempt Message)) (c : Channels F)
      → All (Finishes link_of AllDetailed) attempts
      → Takes (subscription_results link_of message_results attempts) c
      → (c' : Channels F) × (handle_liquidation_subscription attempts c
          ≡ some (c', stage_of attempts))
        × Delivers c (subscription_results link_of message_results attempts) c'
  unfolding handle_liquidation_subscription
  okx_subscription =
      subscription-Sends connect_and_handle process link_of message_results AllDetailed
        process_message-Sends connect_and_handle-follow
