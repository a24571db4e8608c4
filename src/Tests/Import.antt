-- ===== src/Tests/Import.antt =====
-- The import on concrete inputs.
use exchange_data_importer.Prelude.{
  ℕ, zero, suc, ◌%◌, ◌+◌, ◌<◌, ◌≡◌, refl, none, some, List, [], ◌∷◌, ◌++◌, arith, replicate,
  get_elem?, lookup,
}
use exchange_data_importer.Prelude.Int.{ℤ, pos, negsuc}
use exchange_data_importer.Float.Whole.{whole}
use exchange_data_importer.Errors.{errorf, ok}
use exchange_data_importer.Ring.{Ring, len, last, push}
use exchange_data_importer.Ring.Refine.{Holds}
use exchange_data_importer.Utils.{perc_diff}
use exchange_data_importer.Domain.Ticker.{Ticker, Tick, Heap, validate_tick}
use exchange_data_importer.Domain.Liquidation.{no_liquidations}
use exchange_data_importer.Domain.Indicators.{extremes, indicators, calculate_tick}
use exchange_data_importer.Domain.Indicators.Total.{IsLive, indicators_total}
use exchange_data_importer.Importer.History.{
  TickerHistory, update_ticker, get_last_tick, add_tick_history,
}
use exchange_data_importer.Importer.Minutes.{IsHistory}
use exchange_data_importer.Importer.OnePerMinute.{Kept, update_ticker-Kept}
use exchange_data_importer.Importer.Candle.{IsMerged, update_ticker_same_minute}
use exchange_data_importer.Importer.Tick.{
  State, World, notified, sent_to_repository, new_tick, build_tick, build_tickers, set_liquidations,
  deliver, import_fetched, import_tick, admit_ticker,
}
use exchange_data_importer.Importer.Tick.SameMinute.{IsAgain, admit_ticker_same_minute}
use exchange_data_importer.Importer.Tick.Round.{IsState, Imported, import_tick-Imported}
use exchange_data_importer.Importer.Tick.Workers.{Built, build_tickers-Built}
use exchange_data_importer.Exchanges.{ExchangeTicker}
use exchange_data_importer.Importer.Liquidations.{
  received, failed, StreamEvent, handle_events, store_in_memory,
}
use exchange_data_importer.Importer.Imported.{valid_ones, handle_events_lem}
use exchange_data_importer.Tests.Data.{clock, ticker_of, tick_of, sold}

-- A buffer with an entry at address 0 in minute 1 and one at address 1 in minute 2.
abbrev before : Heap ℤ
before =
    ticker_of "BTCUSDT" (clock 1 0) (pos 100) (pos 90)
    ∷ ticker_of "BTCUSDT" (clock 2 0) (pos 110) (pos 95)
    ∷ []

abbrev again : Ticker ℤ
again = ticker_of "BTCUSDT" (clock 2 1) (pos 130) (pos 99)

abbrev ring : Ring ℕ
ring = record { data_ = 0 ∷ 1 ∷ replicate 23 0; start = 0; size = 2; capacity = 25 }

ring-item : (i : ℕ) → i < 2 → get_elem? ring.data_ ((0 + i) % 25) ≡ get_elem? (0 ∷ 1 ∷ []) i
ring-item zero p = refl
ring-item (suc zero) p = refl
ring-item (suc (suc k)) p = absurd (omega arith)

ring-Holds : Holds ring (0 ∷ 1 ∷ [])
ring-Holds = record { valid = omega arith; count = refl; item = ring-item }

abbrev map_of : TickerHistory
map_of = ("BTCUSDT", ring) ∷ []

empty-IsHistory : IsHistory {F = ℤ} (before ++ again ∷ []) []
unfolding lookup
empty-IsHistory = record { buffer = λ name r e. absurd (cc e) }

update_ticker-Kept_example : Kept (before ++ again ∷ []) (update_ticker (before ++ again ∷ []) [] 2)
update_ticker-Kept_example =
    update_ticker-Kept (before ++ again ∷ []) [] 2 empty-IsHistory (omega arith)

update_ticker_same_minute_example :
    (h : Heap ℤ) × (update_ticker (before ++ again ∷ []) map_of 2 ≡ some (h, map_of))
    × IsMerged
        (before ++ again ∷ [])
        1
        2
        (ticker_of "BTCUSDT" (clock 2 0) (pos 110) (pos 95))
        again
        h
unfolding lookup
update_ticker_same_minute_example =
    update_ticker_same_minute (before ++ again ∷ []) map_of ring (0 ∷ 1 ∷ []) 1 2
      (ticker_of "BTCUSDT" (clock 2 0) (pos 110) (pos 95)) again refl ring-Holds refl (omega arith)
      refl refl refl refl

ring-IsLive : IsLive before ring
ring-IsLive = record {
  items = 0 ∷ 1 ∷ [];
  holds = ring-Holds;
  live = (omega arith, (omega arith, tt));
}

indicators_total_example :
    (t : Ticker ℤ) × (indicators before ring again 1 ≡ some t)
    × (extremes before ring 0 2 whole.max_float64 (whole.mul (negsuc 0) whole.max_float64)
        ≡ some (t.min10, t.max10))
    × (t.ask_change ≡ perc_diff (pos 130) (pos 110) (pos 2))
    × (t.bid_change ≡ perc_diff (pos 99) (pos 95) (pos 2))
unfolding len
indicators_total_example =
    indicators_total before ring ring-IsLive again
      (ticker_of "BTCUSDT" (clock 2 0) (pos 110) (pos 95)) 1 (omega arith) refl

abbrev previous : Tick ℤ
previous = tick_of (clock 2 0) (pos 0) (("BTCUSDT", 1) ∷ [])

again-IsAgain :
    IsAgain before map_of ring 1 (ticker_of "BTCUSDT" (clock 2 0) (pos 110) (pos 95)) again previous
unfolding lookup
again-IsAgain = record {
  items = 0 ∷ 1 ∷ [];
  holds = ring-Holds;
  live = (omega arith, (omega arith, tt));
  found = refl;
  newest = refl;
  entry = refl;
  fresh = refl;
  same = refl;
  previous = refl;
  two = omega arith;
}

admit_ticker_same_minute_example :
    (h : Heap ℤ) × (t : Ticker ℤ) × (admit_ticker before map_of (some previous) again
      ≡ some (h, map_of))
    × (get_elem? h 2 ≡ some t)
    × (t.ask_change ≡ perc_diff (pos 130) (pos 130) (pos 2))
    × (t.bid_change ≡ perc_diff (pos 99) (pos 99) (pos 2))
admit_ticker_same_minute_example =
    admit_ticker_same_minute before map_of ring 1
      (ticker_of "BTCUSDT" (clock 2 0) (pos 110) (pos 95)) again previous again-IsAgain

abbrev stream : List (StreamEvent ℤ)
stream =
    received (sold (clock 1 0)) (clock 1 1)
    ∷ failed (errorf "closed")
    ∷ received (record (sold (clock 1 0)) { side = "HOLD" }) (clock 1 2)
    ∷ []

handle_events_lem_example :
    ((handle_events store_in_memory
        (record { repository = []; stream_errors = 0 })
        stream).repository
      ≡ valid_ones stream)
    × ((handle_events store_in_memory
          (record { repository = []; stream_errors = 0 })
          stream).stream_errors
        ≡ 1)
handle_events_lem_example = handle_events_lem (record { repository = []; stream_errors = 0 }) stream

abbrev new_state : State ℤ
new_state = record {
  tickers = [];
  ticks = [];
  tick_history = record { data_ = replicate 25 0; start = 0; size = 0; capacity = 25 };
  ticker_history = [];
}

abbrev pub quiet_world : World ℤ
quiet_world = record {
  start_at = clock 1 0;
  fetched = ok [];
  fetched_at = clock 1 1;
  liquidations = λ time. (no_liquidations, none);
  created_at = clock 1 2;
  handled_at = clock 1 2;
  stored = none;
}

-- The tick of a round in which the exchange lists no ticker.
abbrev quiet_tick : Tick ℤ
quiet_tick = record (tick_of (clock 1 0) (pos 0) []) {
  fetched_at = clock 1 1;
  created_at = clock 1 2;
  fetch_duration = pos 1000;
  handling_duration = pos 1000;
}

abbrev after_quiet : State ℤ
after_quiet = record new_state {
  ticks = quiet_tick ∷ [];
  tick_history = record { data_ = replicate 25 0; start = 0; size = 1; capacity = 25 };
}

quiet_round :
    import_tick new_state quiet_world
    ≡ some (after_quiet, none, notified quiet_tick ∷ sent_to_repository quiet_tick ∷ [])
unfolding import_tick import_fetched new_tick deliver validate_tick build_tick get_last_tick last
    build_tickers add_tick_history push calculate_tick len set_liquidations
quiet_round = refl

new_state-IsState : IsState new_state
unfolding lookup
new_state-IsState = record {
  tickers_valid = record { buffer = λ name r e. absurd (cc e) };
  ring_live = record {
    items = [];
    holds = record { valid = omega arith; count = refl; item = λ i p. elim p [ ] };
    live = tt;
  };
  ticks_live = record { data_live = λ p t e. absurd (cc e) };
}

import_tick-Imported_example : Imported quiet_world (import_tick new_state quiet_world)
import_tick-Imported_example = import_tick-Imported new_state quiet_world new_state-IsState

abbrev listed : List (ExchangeTicker ℤ)
listed =
    record {
      symbol = "BTCUSDT";
      ask_price = pos 140;
      bid_price = pos 120;
      ask_quantity = pos 1;
      bid_quantity = pos 1;
      event_at = clock 3 0;
    }
    ∷ []

nothing_yet-IsHistory : IsHistory before []
unfolding lookup
nothing_yet-IsHistory = record { buffer = λ name r e. absurd (cc e) }

build_tickers-Built_example :
    Built before (build_tickers before [] (clock 3 0) (some previous) listed [])
build_tickers-Built_example =
    build_tickers-Built before [] (clock 3 0) (some previous) listed [] nothing_yet-IsHistory
      (omega arith, tt) tt
