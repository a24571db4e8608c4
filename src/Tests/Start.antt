-- ===== src/Tests/Start.antt =====
-- The start of the import on concrete inputs.
use exchange_data_importer.Prelude.{
  ◌≡◌, refl, true, none, some, List, [], ◌∷◌, map, arith, length, All, subst, ◌↔◌, ◌*◌, ◌-◌,
}
use exchange_data_importer.Prelude.Int.{ℤ, pos}
use exchange_data_importer.Float.Whole.{whole}
use exchange_data_importer.Errors.{errorf, Result, ok}
use exchange_data_importer.Time.{Time, minute}
use exchange_data_importer.Ring.Refine.{Holds}
use exchange_data_importer.Ring.History.{newest}
use exchange_data_importer.Importer.Tick.{State}
use exchange_data_importer.Importer.Start.{
  StoredTick, Turn, context_done, timer, new_importer, init_history, start,
}
use exchange_data_importer.Importer.Start.Newest.{
  bare, bare_stored, up_to, first_state, first_state-IsState, init_history-newest,
}
use exchange_data_importer.Importer.Start.Restored.{HasTickers}
use exchange_data_importer.Importer.Start.Panics.{start-none_iff}
use exchange_data_importer.Importer.Start.Runs.{Ran, course, start-Ran}
use exchange_data_importer.Tests.Data.{clock, ticker_of, tick_of}
use exchange_data_importer.Tests.Import.{quiet_world}

-- Two ticks of one minute, each with a ticker.
abbrev pub history : List (StoredTick ℤ)
history =
    record {
      tick = tick_of (clock 1 0) (pos 0) [];
      entries = ("BTCUSDT", some (ticker_of "BTCUSDT" (clock 1 0) (pos 100) (pos 90))) ∷ [];
    }
    ∷ record {
      tick = tick_of (clock 1 1) (pos 0) [];
      entries = ("BTCUSDT", some (ticker_of "BTCUSDT" (clock 1 1) (pos 110) (pos 95))) ∷ [];
    }
    ∷ []

abbrev pub stored_ticks : Time → Result (List (StoredTick ℤ))
stored_ticks since = ok history

abbrev pub turns : List (Turn ℤ)
turns = timer quiet_world ∷ context_done (errorf "context canceled") ∷ []

history-HasTickers : All HasTickers history
history-HasTickers = (((λ e. cc e), tt), (((λ e. cc e), tt), tt))

pub answered-HasTickers :
    (answer : List (StoredTick ℤ)) → ok history ≡ ok answer → All HasTickers answer
answered-HasTickers answer e =
    let same : history ≡ answer = cc e in subst (All HasTickers) same history-HasTickers

new_importer_made : new_importer {F = ℤ} none none ≡ some first_state
unfolding new_importer
new_importer_made = refl

init_history-newest_example :
    (s' : State ℤ) × (init_history stored_ticks (clock 2 0) first_state ≡ some (s', none))
    × (map bare s'.ticks ≡ map bare_stored history)
    × Holds s'.tick_history (newest 25 (up_to (length history)))
init_history-newest_example =
    init_history-newest stored_ticks (clock 2 0) history first_state new_importer_made refl
      (omega arith) history-HasTickers

start-Ran_example :
    Ran
      (course true (ok history) turns).0
      turns
      (start true stored_ticks (clock 2 0) first_state turns)
start-Ran_example =
    start-Ran true stored_ticks (clock 2 0) first_state turns first_state-IsState
      answered-HasTickers

-- A stored tick with a nil ticker.
abbrev broken : List (StoredTick ℤ)
broken = record { tick = tick_of (clock 1 0) (pos 0) []; entries = ("BTCUSDT", none) ∷ [] } ∷ []

abbrev broken_ticks : Time → Result (List (StoredTick ℤ))
broken_ticks since = ok broken

start-none_iff_example : (start true broken_ticks (clock 2 0) first_state turns ≡ none) ↔ (
    (history : List (StoredTick ℤ)) × (broken_ticks (clock 2 0 - 25 * minute) ≡ ok history)
    × ¬ All HasTickers history)
start-none_iff_example =
    start-none_iff broken_ticks (clock 2 0) first_state turns first_state-IsState
