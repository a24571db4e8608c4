-- ===== src/Tests/Sessions.antt =====
-- Subscriptions to liquidations, and the names that they are for.
use exchange_data_importer.Prelude.{
  String, ◌≡◌, refl, true, false, none, some, List, [], ◌∷◌, arith, str_eq, if◌then◌else◌,
}
use exchange_data_importer.Prelude.Int.{ℤ, pos}
use exchange_data_importer.Float.Whole.{whole}
use exchange_data_importer.Errors.{errorf, Result, ok, err}
use exchange_data_importer.Time.{Time}
use exchange_data_importer.Exchanges.Channels.{Channels, empty_backlog}
use exchange_data_importer.Exchanges.Http.{Answer, not_executed, answered, response_of}
use exchange_data_importer.Exchanges.Session.{
  Read, context_done, no_message, message, Attempt, read_messages,
}
use exchange_data_importer.Exchanges.Session.Delivered.{Delivers}
use exchange_data_importer.Exchanges.Session.Loop.{stage_of}
use exchange_data_importer.Exchanges.Session.Link.{subscription_results}
use exchange_data_importer.Exchanges.Bybit.Fetch.{names_after, bybit_names_known}
use exchange_data_importer.Exchanges.Bybit as Bybit
use exchange_data_importer.Exchanges.Bybit.Session as BybitSession
use exchange_data_importer.Exchanges.Okx as Okx
use exchange_data_importer.Exchanges.Okx.Session as OkxSession
use exchange_data_importer.Exchanges.Binance as Binance
use exchange_data_importer.Exchanges.Binance.Session as BinanceSession

abbrev pub parse_one : String → Result ℤ
parse_one text = if str_eq text "" then err (errorf "invalid syntax") else ok (pos 7)

abbrev pub no_channels : Channels ℤ
no_channels = record { out = []; errs = []; room = 9; backlog = empty_backlog [] }

abbrev bybit_message : String → Read (Result Bybit.LiquidationEvent)
bybit_message price = message (
    ok (record {
      topic = "liquidation.BTCUSDT";
      kind = "snapshot";
      body = record {
        symbol = "BTCUSDT";
        side = "Buy";
        price = price;
        quantity = "7";
        updated_time = pos 7;
      };
      ts = pos 1;
    }))

abbrev okx_message : String → Read (Result Okx.LiquidationEvent)
okx_message price = message (
    ok (record {
      channel = "liquidation-orders";
      inst_type = "SWAP";
      list =
          record {
            details = record { side = "buy"; quantity = "7"; timestamp = "7"; price = price } ∷ [];
            inst_id = "BTC-USDT-SWAP";
          }
          ∷ [];
    }))

abbrev binance_message : String → Read (Result Binance.LiquidationDto)
binance_message price = message (
    ok (record {
      event_type = "forceOrder";
      event_time = pos 1;
      order_data = record {
        symbol = "BTCUSDT";
        side = "BUY";
        order_type = "LIMIT";
        time_in_force = "IOC";
        orig_quantity = "7";
        price = price;
        average_price = "7";
        order_status = "FILLED";
        last_quantity = "7";
        time = pos 1;
      };
    }))

-- A first connection whose read fails, and a second that the context ends.
abbrev attempts_of : {M : Type 0} → Read M → Read M → List (Attempt M)
attempts_of good bad =
    record {
      dial = none;
      available_tickers = "BTCUSDT" ∷ [];
      write_json = λ args. none;
      reads = good ∷ bad ∷ no_message (errorf "closed") ∷ [];
      ended = false;
    }
    ∷ record {
      dial = none;
      available_tickers = "BTCUSDT" ∷ [];
      write_json = λ args. none;
      reads = good ∷ context_done ∷ [];
      ended = true;
    }
    ∷ []

abbrev pub bybit_attempts : List (Attempt BybitSession.Message)
bybit_attempts = attempts_of (bybit_message "7") (bybit_message "")

bybit_subscription_example :
    (c' : Channels ℤ) × (BybitSession.handle_liquidation_subscription parse_one bybit_attempts
        no_channels
      ≡ some (c', stage_of bybit_attempts))
    × Delivers no_channels
        (subscription_results BybitSession.link_of
          (BybitSession.message_results parse_one)
          bybit_attempts)
        c'
unfolding Bybit.to_liquidation
bybit_subscription_example =
    BybitSession.bybit_subscription parse_one bybit_attempts no_channels
      (λ e. (tt, (tt, (tt, tt))), (λ e. (tt, (tt, tt)), tt)) (record { enough = omega arith })

abbrev pub okx_attempts : List (Attempt OkxSession.Message)
okx_attempts = attempts_of (okx_message "7") (okx_message "")

okx_subscription_example :
    (c' : Channels ℤ) × (OkxSession.handle_liquidation_subscription parse_one parse_one okx_attempts
        no_channels
      ≡ some (c', stage_of okx_attempts))
    × Delivers no_channels
        (subscription_results OkxSession.link_of
          (OkxSession.message_results parse_one parse_one)
          okx_attempts)
        c'
unfolding Okx.first_detail
okx_subscription_example =
    OkxSession.okx_subscription parse_one parse_one okx_attempts no_channels
      (λ e. (tt, ((λ n. cc, tt), ((λ n. cc, tt), tt))), (λ e. (tt, ((λ n. cc, tt), tt)), tt))
      (record { enough = omega arith })

abbrev binance_attempts : List (Attempt BinanceSession.Message)
binance_attempts = attempts_of (binance_message "7") (binance_message "")

binance_subscription_example :
    (c' : Channels ℤ) × (BinanceSession.handle_liquidation_subscription parse_one binance_attempts
        no_channels
      ≡ some (c', stage_of binance_attempts))
    × Delivers no_channels
        (subscription_results BinanceSession.link_of
          (BinanceSession.message_results parse_one)
          binance_attempts)
        c'
unfolding Binance.to_liquidation
binance_subscription_example =
    BinanceSession.binance_subscription parse_one binance_attempts no_channels
      (λ e. (tt, (tt, (tt, tt))), (λ e. (tt, (tt, tt)), tt)) (record { enough = omega arith })

-- A first call that fails, and a second that is answered with one ticker.
abbrev calls : List (Answer Bybit.TickerResponse × Time)
calls =
    (not_executed (errorf "refused"), 1)
    ∷ (
      answered 200 (
          ok (record {
            ret_code = pos 0;
            ret_msg = "OK";
            category = "linear";
            time = pos 1;
            list =
                record {
                  symbol = "BTCUSDT";
                  last_price = "7";
                  bid_price = "7";
                  bid_quantity = "7";
                  ask_price = "7";
                  ask_quantity = "7";
                }
                ∷ [];
          })),
      2,
    )
    ∷ []

abbrev no_names : Bybit.TickersInfo
no_names = record { available_tickers = []; updated_at = 0 }

abbrev named_attempt : Attempt BybitSession.Message
named_attempt = record {
  dial = none;
  available_tickers = (names_after parse_one calls no_names).available_tickers;
  write_json = λ args. none;
  reads = bybit_message "7" ∷ [];
  ended = false;
}

bybit_names_known_example :
    BybitSession.connect_and_handle parse_one named_attempt no_channels
    ≡ read_messages
        (λ m k. some (Bybit.process_message parse_one m k))
        (bybit_message "7" ∷ [])
        no_channels
unfolding response_of
bybit_names_known_example =
    bybit_names_known parse_one calls no_names named_attempt
      (λ response e k. cc, (λ response e k. ground arith, tt)) refl refl refl refl no_channels
