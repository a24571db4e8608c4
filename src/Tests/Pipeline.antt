-- ===== src/Tests/Pipeline.antt =====
-- Liquidations from a websocket to the repository, on concrete inputs.
use exchange_data_importer.Prelude.{String, ℕ, suc, ◌≡◌, ◌≢◌, refl, some, List, [], ◌∷◌, arith}
use exchange_data_importer.Prelude.Int.{ℤ, pos, wrap_int64}
use exchange_data_importer.Float.Whole.{whole}
use exchange_data_importer.Time.{unix_ms, zero_time}
use exchange_data_importer.Errors.{Error, errorf, wrapped}
use exchange_data_importer.Domain.Liquidation.{Liquidation}
use exchange_data_importer.Exchanges.{ExchangeLiquidation}
use exchange_data_importer.Exchanges.Channels.{Channels, empty_backlog, has_room}
use exchange_data_importer.Exchanges.Session.Delivered.{oks, errs, accepted}
use exchange_data_importer.Exchanges.Session.Loop.{stage_of}
use exchange_data_importer.Exchanges.Session.Link.{subscription_results}
use exchange_data_importer.Exchanges.Bybit.{to_liquidation}
use exchange_data_importer.Exchanges.Bybit.Session as BybitSession
use exchange_data_importer.Exchanges.Okx.{first_detail}
use exchange_data_importer.Exchanges.Okx.Session as OkxSession
use exchange_data_importer.Exchanges.Okx.Stored.{okx_liquidations-Stored}
use exchange_data_importer.Importer.Stream.Subscribed.{IsSane, Stored}
use exchange_data_importer.Exchanges.Bybit.Stored.{bybit_liquidations-Stored}
use exchange_data_importer.Importer.Liquidations.{
  StreamEvent, received, failed, Import, handle_events, store_in_memory,
}
use exchange_data_importer.Importer.Stream.{AreReceived, takes, fails, nothing}
use exchange_data_importer.Tests.Data.{clock}
use exchange_data_importer.Tests.Sessions.{parse_one, no_channels, bybit_attempts, okx_attempts}

abbrev converted : String → String → ExchangeLiquidation ℤ
converted symbol side = record {
  symbol = symbol;
  side = side;
  price = pos 7;
  quantity = pos 7;
  total_price = pos 49;
  event_at = unix_ms (pos 7);
}

converted-IsSane : (symbol side : String) → symbol ≢ "" → IsSane (converted symbol side)
unfolding unix_ms wrap_int64
converted-IsSane symbol side n = record {
  symbol = n;
  event_at = λ e. omega (arith, e);
  price = refl;
  quantity = refl;
  product = refl;
}

abbrev nothing_stored : Import (List (Liquidation ℤ))
nothing_stored = record { repository = []; stream_errors = 0 }

abbrev invalid_price : Error
invalid_price = wrapped "invalid price '%s': %w" (errorf "invalid syntax")

abbrev closed : Error
closed = wrapped "websocket error: %w" (wrapped "reading message: %w" (errorf "closed"))

-- The importer meets an error between the two liquidations.
abbrev events_of : ExchangeLiquidation ℤ → List (StreamEvent ℤ)
events_of l =
    received l (clock 1 1) ∷ failed invalid_price ∷ received l (clock 1 2) ∷ failed closed ∷ []

clock_set : (m s : ℕ) → clock (suc m) s ≢ zero_time
clock_set m s e = omega (arith, e)

events_of-AreReceived :
    (l : ExchangeLiquidation ℤ)
    → AreReceived (l ∷ l ∷ []) (invalid_price ∷ closed ∷ []) (events_of l)
events_of-AreReceived l =
    takes l (clock 1 1) (l ∷ []) (invalid_price ∷ closed ∷ []) _ (clock_set 0 1) (
      fails invalid_price (l ∷ []) (closed ∷ []) _
        (takes l (clock 1 2) [] (closed ∷ []) _ (clock_set 0 2) (fails closed [] [] [] nothing)))

abbrev bybit_sold : ExchangeLiquidation ℤ
bybit_sold = converted "BTCUSDT" "SELL"

bybit_sold-IsSane : IsSane bybit_sold
bybit_sold-IsSane = converted-IsSane "BTCUSDT" "SELL" (λ e. cc e)

bybit_liquidations-Stored_example :
    let rs =
      subscription_results BybitSession.link_of
        (BybitSession.message_results parse_one)
        bybit_attempts in
    (c : Channels ℤ) × (BybitSession.handle_liquidation_subscription parse_one bybit_attempts
        no_channels
      ≡ some (c, stage_of bybit_attempts))
    × (c.out ≡ oks rs)
    × (c.errs ≡ accepted (empty_backlog []) (errs rs))
    × Stored nothing_stored
        (handle_events store_in_memory nothing_stored (events_of bybit_sold))
        rs
        (accepted (empty_backlog []) (errs rs))
unfolding to_liquidation has_room
bybit_liquidations-Stored_example =
    bybit_liquidations-Stored parse_one bybit_attempts 9 [] nothing_stored (events_of bybit_sold)
      (λ e. (tt, (tt, (tt, tt))), (λ e. (tt, (tt, tt)), tt)) (omega arith)
      (bybit_sold-IsSane, (bybit_sold-IsSane, tt)) (events_of-AreReceived bybit_sold)

abbrev okx_bought : ExchangeLiquidation ℤ
okx_bought = converted "BTC-USDT-SWAP" "BUY"

okx_bought-IsSane : IsSane okx_bought
okx_bought-IsSane = converted-IsSane "BTC-USDT-SWAP" "BUY" (λ e. cc e)

okx_liquidations-Stored_example :
    let rs =
      subscription_results OkxSession.link_of
        (OkxSession.message_results parse_one parse_one)
        okx_attempts in
    (c : Channels ℤ) × (OkxSession.handle_liquidation_subscription parse_one parse_one okx_attempts
        no_channels
      ≡ some (c, stage_of okx_attempts))
    × (c.out ≡ oks rs)
    × (c.errs ≡ accepted (empty_backlog []) (errs rs))
    × Stored nothing_stored
        (handle_events store_in_memory nothing_stored (events_of okx_bought))
        rs
        (accepted (empty_backlog []) (errs rs))
unfolding first_detail unix_ms wrap_int64 has_room
okx_liquidations-Stored_example =
    okx_liquidations-Stored parse_one parse_one okx_attempts 9 [] nothing_stored
      (events_of okx_bought)
      (λ e. (tt, ((λ n. cc, tt), ((λ n. cc, tt), tt))), (λ e. (tt, ((λ n. cc, tt), tt)), tt))
      (omega arith) (okx_bought-IsSane, (okx_bought-IsSane, tt)) (events_of-AreReceived okx_bought)
