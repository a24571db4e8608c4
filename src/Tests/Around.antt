-- ===== src/Tests/Around.antt =====
-- Domain rules, notifications and the builder on concrete inputs.
use exchange_data_importer.Prelude.{
  Option, ℕ, ◌*◌, ◌^◌, ◌≡◌, refl, ◌≢◌, ◌↔◌, inl, inr, true, false, none, some, List, [], ◌∷◌, arith,
  String, lookup,
}
use exchange_data_importer.Prelude.Int.{ℤ, pos, negsuc, ltb_ℤ}
use exchange_data_importer.Float.Whole.{whole, whole-IsOrdered}
use exchange_data_importer.Time.{zero_time}
use exchange_data_importer.Errors.{ok}
use exchange_data_importer.Domain.Order
use exchange_data_importer.Domain.Liquidation
use exchange_data_importer.Domain.Liquidation.{Liquidation, liquidation_validate-none_iff}
use exchange_data_importer.Domain.Order.{order_validate-none_iff}
use exchange_data_importer.Domain.Ticker.{Ticker, Tick, validate, validate_numbers}
use exchange_data_importer.Notifier.{handlers_of, subscribe}
use exchange_data_importer.Notifier.Delivery.{handlers_of-subscribe, subscribe_refused}
use exchange_data_importer.Notifier.Alert.{Thresholds, Line, format_tick_alert}
use exchange_data_importer.Notifier.Alert.Decision.{HasCause, format_tick_alert_iff}
use exchange_data_importer.Notifier.TickInfo.{new_print_count, format_all}
use exchange_data_importer.Notifier.TickInfo.Header.{rows_from, format_all_lem}
use exchange_data_importer.Notifier.Clients.{TelegramNotifier, text, status}
use exchange_data_importer.Notifier.Clients.RateLimit.{
  Call, sent_times, AreApart, sent_times-AreApart,
}
use exchange_data_importer.Bootstrap.Options.{Options, ExchangeOption}
use exchange_data_importer.Bootstrap.Builder.{App, Outside, build_app}
use exchange_data_importer.Bootstrap.Builder.OnWay.{HasLoggers}
use exchange_data_importer.Bootstrap.Builder.Outcome.{CanRun, build_app_outcome}
use exchange_data_importer.Tests.Data.{clock, ticker_of, tick_of, order_of, liquidation_of}

order_validate-none_iff_example :
    (Order.validate (order_of "BUY" (clock 1 0)) ≡ none)
    ↔ Order.IsSound (order_of "BUY" (clock 1 0))
order_validate-none_iff_example = order_validate-none_iff (order_of "BUY" (clock 1 0))

liquidation_validate-none_iff_example :
    (Liquidation.validate (liquidation_of "SELL" (clock 1 0)) ≡ none) ↔ (
      (clock 1 0 ≢ zero_time)
      × (clock 1 0 ≢ zero_time)
      × Order.IsSound (order_of "SELL" (clock 1 0)))
liquidation_validate-none_iff_example =
    liquidation_validate-none_iff (liquidation_of "SELL" (clock 1 0))

abbrev quoted : Ticker ℤ
quoted = ticker_of "BTCUSDT" (clock 1 0) (pos 100) (pos 90)

validate_numbers_example :
    (ltb_ℤ (pos 0) (pos 90) ≡ true)
    × (ltb_ℤ (pos 90) (pos 100) ≡ true)
    × (ltb_ℤ (pos 0) (pos 100) ≡ true)
unfolding validate
validate_numbers_example = validate_numbers whole-IsOrdered quoted refl refl refl refl

handlers_of-subscribe_example :
    (handlers_of {C = ℕ} {S = ℕ} (subscribe [] "TICK_INFO" (some 1) (some 2)) "TICK_INFO"
      ≡ record { client = 1; strategy = 2 } ∷ [])
    × (◌≢◌ {A = String} "MARKET_DATA" "TICK_INFO"
        → handlers_of {C = ℕ} {S = ℕ} (subscribe [] "TICK_INFO" (some 1) (some 2)) "MARKET_DATA"
          ≡ [])
unfolding handlers_of subscribe lookup
handlers_of-subscribe_example =
    handlers_of-subscribe [] "TICK_INFO" "MARKET_DATA" 1 2 (inr (inr refl))

subscribe_refused_example : subscribe {C = ℕ} {S = ℕ} [] "TICK_INFO" none (some 2) ≡ []
subscribe_refused_example = subscribe_refused [] "TICK_INFO" none (some 2) (inr (inl refl))

abbrev thresholds : Thresholds ℤ
thresholds = record {
  avg_price_1m_change = pos 3;
  avg_price_20m_change = pos 5;
  ticker_price_1m_change = pos 5;
}

abbrev falling : Tick ℤ
falling = tick_of (clock 1 0) (negsuc 3) []

format_tick_alert_iff_example :
    (out : Option (List (Line ℤ))) × (format_tick_alert [] thresholds (some falling) ≡ some out)
    × ((out ≢ none) ↔ HasCause [] thresholds falling)
format_tick_alert_iff_example = format_tick_alert_iff [] thresholds falling tt

abbrev three_ticks : List (Tick ℤ)
three_ticks = falling ∷ falling ∷ falling ∷ []

format_all_lem_example : (format_all new_print_count three_ticks).1 ≡ rows_from 0 three_ticks
format_all_lem_example = format_all_lem three_ticks (omega arith)

abbrev telegram : TelegramNotifier
telegram = record {
  bot_token = "token";
  chat_id = "chat";
  interval = pos (10 * 10 ^ 9);
  last_sent_time = zero_time;
}

abbrev calls : List Call
calls =
    record { now = clock 1 0; event = text "a"; answer = status 200 }
    ∷ record { now = clock 1 5; event = text "b"; answer = status 200 }
    ∷ record { now = clock 1 20; event = text "c"; answer = status 500 }
    ∷ []

sent_times-AreApart_example : AreApart (pos (10 * 10 ^ 9)) zero_time (sent_times telegram calls)
sent_times-AreApart_example =
    sent_times-AreApart telegram calls (omega arith, (omega arith, (omega arith, tt)))

abbrev disabled : ExchangeOption
disabled = record { enabled = false; api_url = ""; ws_url = "" }

abbrev pub options : Options
options = record {
  env = "test";
  service_name = "importer";
  mongo_enabled = false;
  mongo_url = "";
  sqlite_enabled = false;
  sqlite_path = "";
  binance = disabled;
  bybit = record disabled { enabled = true };
  okx = record disabled { enabled = true };
  redis = record { url = ""; topics = "" };
  telegram = record { bot_token = ""; chat_id = ""; interval = pos 0; topics = "" };
  stdout_topics = "TICK_INFO";
  datadog = record {
    enabled = true;
    agent_host = "localhost";
    agent_port = "8126";
    enabled_tracing = true;
    enabled_metrics = true;
    enabled_profiling = false;
  };
}

abbrev pub outside : Outside
outside = record {
  libraries = record {
    production_made = true;
    development_made = true;
    redis_url = none;
    redis_ping = none;
    mongo_connect = none;
    mongo_ping = none;
  };
  sqlite_open = none;
  set_up = record { create_indexes = λ collection models. none; make_table = λ table. none };
  telemetry = record { statsd = none; profiler = none };
}

pub outside-HasLoggers : HasLoggers outside
outside-HasLoggers = record { production = refl; development = refl }

build_app_outcome_example :
    (build_app {F = ℤ} outside options none "1" ≢ none)
    × ((app : App ℤ)
        → build_app outside options none "1" ≡ some (ok app)
        → CanRun outside options app)
build_app_outcome_example = build_app_outcome outside options none "1" outside-HasLoggers
