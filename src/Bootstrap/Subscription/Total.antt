-- ===== src/Bootstrap/Subscription/Total.antt =====
-- internal/infrastructure/exchanges/{binance,bybit,okx}/client.go: when the goroutine of a subscription
-- does not panic.
use exchange_data_importer.Prelude.{◌≡◌, refl, subst, some, List, [], ◌∷◌, All}
use exchange_data_importer.Float.{Float}
use exchange_data_importer.Errors.{ok, err}
use exchange_data_importer.Exchanges.Session.{
  Read, context_done, no_deadline, no_message, message, Attempt,
}
use exchange_data_importer.Exchanges.Session.Loop.{AllMessages}
use exchange_data_importer.Exchanges.Session.Total.{Goes, handle_subscription-Goes}
use exchange_data_importer.Exchanges.Binance as Binance
use exchange_data_importer.Exchanges.Binance.Session as BinanceSession
use exchange_data_importer.Exchanges.Bybit as Bybit
use exchange_data_importer.Exchanges.Bybit.Session as BybitSession
use exchange_data_importer.Exchanges.Okx as Okx
use exchange_data_importer.Exchanges.Okx.Safety.{HasDetails, okx_process_message-Handled}
use exchange_data_importer.Exchanges.Okx.Session as OkxSession
use exchange_data_importer.Bootstrap.Exchange.{Exchange, binance, bybit, okx}
use exchange_data_importer.Bootstrap.Subscription.{
  Connections, new_channels, subscribe_liquidations,
}

any_messages : {M : Type 0} (reads : List (Read M)) → AllMessages (λ m. Unit) reads
any_messages [] = tt
any_messages (context_done ∷ rest) = tt
any_messages (no_deadline e ∷ rest) = tt
any_messages (no_message e ∷ rest) = tt
any_messages (message m ∷ rest) = (tt, any_messages rest)

any_attempts :
    {M : Type 0} (attempts : List (Attempt M)) → All (λ a. AllMessages (λ m. Unit) a.reads) attempts
any_attempts [] = tt
any_attempts (a ∷ rest) = (any_messages a.reads, any_attempts rest)

module _ {F : Type 0} ⦃f : Float F⦄ where
  -- Every liquidation in a message that OKX sends carries a detail.
  abbrev pub IsDetailed : Connections F → Type 0
  IsDetailed w =
      All (λ a. AllMessages (OkxSession.AllDetailed w.parse_float w.parse_int) a.reads)
        w.okx_attempts

  okx_message_details :
      (w : Connections F) (m : OkxSession.Message)
      → OkxSession.AllDetailed w.parse_float w.parse_int m
      → (event : Okx.LiquidationEvent) → m ≡ ok event
      → All HasDetails event.list
  okx_message_details w (err e) h event same = absurd (cc same)
  okx_message_details w (ok sent) h event same =
      let e : sent ≡ event = cc same in subst (λ k. All HasDetails k.list) e h

  pub subscribe_liquidations-Goes :
      (x : Exchange) (w : Connections F) → IsDetailed w → Goes (subscribe_liquidations x w)
  unfolding subscribe_liquidations BinanceSession.handle_liquidation_subscription
      BybitSession.handle_liquidation_subscription OkxSession.handle_liquidation_subscription
  subscribe_liquidations-Goes (binance x) w h =
      handle_subscription-Goes (λ m c. some (Binance.process_message w.parse_float m c)) (λ m. Unit)
        (λ m p c. (_, _, refl)) (BinanceSession.connect_and_handle w.parse_float)
        BinanceSession.link_of (BinanceSession.connect_and_handle-follow w.parse_float)
        w.binance_attempts (new_channels w) (any_attempts w.binance_attempts)
  subscribe_liquidations-Goes (bybit x) w h =
      handle_subscription-Goes (λ m c. some (Bybit.process_message w.parse_float m c)) (λ m. Unit)
        (λ m p c. (_, _, refl)) (BybitSession.connect_and_handle w.parse_float) BybitSession.link_of
        (BybitSession.connect_and_handle-follow w.parse_float) w.bybit_attempts (new_channels w)
        (any_attempts w.bybit_attempts)
  subscribe_liquidations-Goes (okx x) w h =
      handle_subscription-Goes (Okx.process_message w.parse_float w.parse_int)
        (OkxSession.AllDetailed w.parse_float w.parse_int)
        (λ m p c.
          let r =
            okx_process_message-Handled w.parse_float w.parse_int m c (okx_message_details w m p) in
          (r.channels, r.problem, r.result))
        (OkxSession.connect_and_handle w.parse_float w.parse_int) OkxSession.link_of
        (OkxSession.connect_and_handle-follow w.parse_float w.parse_int) w.okx_attempts
        (new_channels w) h
