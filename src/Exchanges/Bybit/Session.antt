-- ===== src/Exchanges/Bybit/Session.antt =====
-- internal/infrastructure/exchanges/bybit/client.go: the subscription to liquidations. What the
-- websocket and the context gave is a parameter.
use exchange_data_importer.Prelude.{
  String, ◌≡◌, refl, Bool, true, false, not, Option, none, some, List, [], ◌∷◌, arith, starts_with,
  ◌==◌, if◌then◌else◌, length, All,
}
use exchange_data_importer.Float.{Float}
use exchange_data_importer.Errors.{Error, wrapped, Result, ok, err}
use exchange_data_importer.Exchanges.{ExchangeLiquidation}
use exchange_data_importer.Exchanges.Channels.{Channels, send_result}
use exchange_data_importer.Exchanges.Session.{
  Status, returned, Attempt, Stage, read_messages, handle_subscription,
}
use exchange_data_importer.Exchanges.Session.Delivered.{
  Delivers, Takes, Delivers-nil, send_error-Delivers, send_result-Delivers,
}
use exchange_data_importer.Exchanges.Session.Loop.{stage_of}
use exchange_data_importer.Exchanges.Session.Link.{
  Link, idle, broken, opened, follow, Finishes, subscription_results, subscription-Sends,
}
use exchange_data_importer.Exchanges.Bybit.{
  LiquidationEvent, topics_of, to_liquidation, process_message,
}

abbrev pub Message : Type 0
Message = Result LiquidationEvent

-- What became of a connection before the first read.
abbrev pub link_of : Attempt Message → Link
link_of a = elim a.dial [
  | some e ↦ broken (wrapped "websocket dial: %w" e)
  | none ↦
      if length a.available_tickers == 0
      then idle
      else elim (a.write_json (topics_of a.available_tickers)) [
        | some e ↦ broken (wrapped "subscribing to liquidation topic: %w" e)
        | none ↦ opened
      ]
]

module _ {F : Type 0} ⦃f : Float F⦄ (parse_float : String → Result F) where
  abbrev process : Message → Channels F → Option (Channels F × Option Error)
  process m c = some (process_message parse_float m c)

  -- `connectAndHandle`: nothing is subscribed to while no ticker is known.
  unfoldable pub connect_and_handle : Attempt Message → Channels F → Option (Channels F × Status)
  unfolding read_messages
  connect_and_handle a c = elim a.dial [
    | some e ↦ some (c, returned (some (wrapped "websocket dial: %w" e)))
    | none ↦
        if length a.available_tickers == 0
        then some (c, returned none)
        else elim (a.write_json (topics_of a.available_tickers)) [
          | some e ↦ some (c, returned (some (wrapped "subscribing to liquidation topic: %w" e)))
          | none ↦ read_messages process a.reads c
        ]
  ]

  -- `handleLiquidationSubscription`.
  unfoldable pub handle_liquidation_subscription :
      List (Attempt Message) → Channels F → Option (Channels F × Stage)
  unfolding handle_subscription
  handle_liquidation_subscription attempts c = handle_subscription connect_and_handle attempts c

  -- The results of one message.
  abbrev pub message_results : Message → List (Result (ExchangeLiquidation F))
  message_results (err e) = err e ∷ []
  message_results (ok event) =
      if not (starts_with event.topic "liquidation")
      then []
      else to_liquidation parse_float event.body ∷ []

  process_message-Delivers :
      (m : Message) (c : Channels F)
      → Takes (message_results m) c
      → Delivers c (message_results m) (process_message parse_float m c).0
  unfolding process_message
  process_message-Delivers (err e) c t = send_error-Delivers c e t
  process_message-Delivers (ok event) c t = go (not (starts_with event.topic "liquidation")) t
    where
      r : Result (ExchangeLiquidation F)
      r = to_liquidation parse_float event.body

      go :
          (b : Bool)
          → Takes (if b then [] else r ∷ []) c
          → Delivers c (if b then [] else r ∷ []) (if b then (c, none) else send_result c r).0
      go true t = Delivers-nil c t
      go false t = send_result-Delivers c r t

  pub connect_and_handle-follow :
      (a : Attempt Message) (c : Channels F)
      → connect_and_handle a c ≡ follow process (link_of a) a.reads c
  unfolding connect_and_handle
  connect_and_handle-follow a c = ground arith

  -- For attempts whose opened connections come to an end (the context ends, a deadline cannot be
  -- set or a read fails), and whose liquidations the context leaves time to send, Bybit's
  -- subscription returns without a panic; it sends exactly the liquidations that convert, in order;
  -- on the error channel, as far as they find room in its buffer of a hundred, out of which the
  -- importer takes errors meanwhile, the errors of the messages that do not and the error that
  -- ended each connection; and it closes its channels if and only if the context has ended after
  -- one of the attempts, whatever would come after that.
  pub bybit_subscription :
      (attempts : List (Attempt Message)) (c : Channels F)
      → All (Finishes link_of (λ m. Unit)) attempts
      → Takes (subscription_results link_of message_results attempts) c
      → (c' : Channels F) × (handle_liquidation_subscription attempts c
          ≡ some (c', stage_of attempts))
        × Delivers c (subscription_results link_of message_results attempts) c'
  unfolding handle_liquidation_subscription
  bybit_subscription =
      subscription-Sends connect_and_handle process link_of message_results (λ m. Unit)
        (λ m p c t. (_, _, refl, process_message-Delivers m c t)) connect_and_handle-follow
