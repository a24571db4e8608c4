-- ===== src/Importer/Start/Restored.antt =====
-- internal/importer/history_manager.go: what `initHistory` leaves, over the invariant of the state.
use exchange_data_importer.Prelude.{
  ℕ, suc, ◌+◌, String, ◌≡◌, refl, ◌∙◌, some, Option, List, [], ◌∷◌, ◌++◌, arith, length,
  length-append, All, none, ◌≢◌,
}
use exchange_data_importer.Float.{Float}
use exchange_data_importer.Domain.Ticker.{Ticker, Tick, Heap}
use exchange_data_importer.Importer.History.{TickerHistory, add_tick_history}
use exchange_data_importer.Importer.Minutes.{IsHistory}
use exchange_data_importer.Importer.OnePerMinute.{update_ticker-Kept}
use exchange_data_importer.Importer.Tick.{State}
use exchange_data_importer.Importer.Tick.Below.{AreBelow, AreBelow-grow}
use exchange_data_importer.Importer.Tick.Averages.{grow-IsLiveRing, add_tick_history_total}
use exchange_data_importer.Importer.Tick.Workers.{grow-IsHistory}
use exchange_data_importer.Importer.Tick.Round.{IsState, HaveLive-append}
use exchange_data_importer.Importer.Start.{
  StoredTick, present, at_addresses, add_tickers, restore_tick, restore_ticks,
}

module _ {F : Type 0} where
  at_addresses-AreBelow :
      (p : ℕ) (entries : List (String × Option (Ticker F)))
      → AreBelow (p + length entries) (at_addresses p entries)
  at_addresses-AreBelow p [] = tt
  at_addresses-AreBelow p ((name, t) ∷ rest) = (
    omega arith,
    AreBelow-grow (suc p + length rest) (p + suc (length rest)) (at_addresses (suc p) rest)
        (omega arith) (at_addresses-AreBelow (suc p) rest),
  )

module _ {F : Type 0} where
  -- No pointer of a stored tick is nil.
  abbrev pub HasTickers : StoredTick F → Type 0
  HasTickers stored = All (λ e. e.1 ≢ none) stored.entries

  present_total :
      (entries : List (String × Option (Ticker F)))
      → All (λ e. e.1 ≢ none) entries
      → (loaded : Heap F) × (present entries ≡ some loaded) × (length loaded ≡ length entries)
  unfolding present
  present_total [] h = ([], refl, refl)
  present_total ((name, none) ∷ rest) h = absurd (h.0 refl)
  present_total ((name, some t) ∷ rest) h =
      let (loaded, e, size) = present_total rest h.1 in (t ∷ loaded, rw e refl, omega (arith, size))

module _ {F : Type 0} ⦃f : Float F⦄ where
  add_tickers_total :
      (h : Heap F) (m : TickerHistory) (data_ : List (String × ℕ))
      → IsHistory h m
      → AreBelow (length h) data_
      → (h' : Heap F) × (m' : TickerHistory) × (add_tickers h m data_ ≡ some (h', m'))
        × (length h' ≡ length h)
        × IsHistory h' m'
  unfolding add_tickers
  add_tickers_total h m [] i below = (h, m, refl, refl, i)
  add_tickers_total h m ((name, p) ∷ rest) i below =
      let k = update_ticker-Kept h m p i below.0 in
      let (h', m', e, size, i') =
        add_tickers_total k.heap k.history rest k.valid
          (AreBelow-grow (length h) (length k.heap) rest (omega (arith, k.minutes.size)) below.1) in
      (h', m', rw (k.result, e), size ∙ k.minutes.size, i')

  -- The tick as it stands on the heap of ticks.
  abbrev pub placed : State F → StoredTick F → Tick F
  placed s stored = record stored.tick { data_ = at_addresses (length s.tickers) stored.entries }

  -- A tick is restored, with the invariant.
  pub record RestoredTick (s : State F) (stored : StoredTick F) (out : Option (State F))
      : Type 0 where
    pub state : State F
    pub result : out ≡ some state
    pub ticks : state.ticks ≡ s.ticks ++ placed s stored ∷ []
    pub added :
        add_tick_history (s.ticks ++ placed s stored ∷ []) s.tick_history (length s.ticks)
        ≡ some state.tick_history
    pub valid : IsState state

  pub restore_tick-RestoredTick :
      (s : State F) (stored : StoredTick F)
      → IsState s
      → HasTickers stored
      → RestoredTick s stored (restore_tick s stored)
  unfolding restore_tick
  restore_tick-RestoredTick s stored i there =
      let data_ = at_addresses (length s.tickers) stored.entries in
      let (loaded, e0, many) = present_total stored.entries there in
      let size : length (s.tickers ++ loaded) ≡ length s.tickers + length stored.entries =
        omega (arith, length-append s.tickers loaded, many) in
      let below : AreBelow (length (s.tickers ++ loaded)) data_ =
        rw size (at_addresses-AreBelow (length s.tickers) stored.entries) in
      let t = placed s stored in
      let ticks = s.ticks ++ t ∷ [] in
      let longer : length ticks ≡ length s.ticks + 1 =
        omega (arith, length-append s.ticks (t ∷ [])) in
      let (r, e1, live) =
        add_tick_history_total ticks s.tick_history (length s.ticks)
          (grow-IsLiveRing (length s.ticks) (length ticks) s.tick_history (omega arith) i.ring_live)
          (omega arith) in
      let (h, m, e2, same, kept) =
        add_tickers_total (s.tickers ++ loaded) s.ticker_history data_
          (grow-IsHistory s.tickers loaded s.ticker_history i.tickers_valid) below in
      let d =
        HaveLive-append (length s.tickers) (length h) s.ticks t (omega (arith, same, size))
          i.ticks_live (rw same below) in
      record {
        state = record { tickers = h; ticks = ticks; tick_history = r; ticker_history = m };
        result = cc (e0, e1, e2);
        ticks = refl;
        added = e1;
        valid = record { tickers_valid = kept; ring_live = live; ticks_live = d };
      }

  -- The ticks are restored, with the invariant.
  pub record Restored (out : Option (State F)) : Type 0 where
    pub state : State F
    pub result : out ≡ some state
    pub valid : IsState state

  pub restore_ticks-Restored :
      (s : State F) (history : List (StoredTick F))
      → IsState s
      → All HasTickers history
      → Restored (restore_ticks s history)
  unfolding restore_ticks
  restore_ticks-Restored s [] i there = record { state = s; result = refl; valid = i }
  restore_ticks-Restored s (stored ∷ rest) i there =
      let r = restore_tick-RestoredTick s stored i there.0 in
      let r' = restore_ticks-Restored r.state rest r.valid there.1 in
      record { state = r'.state; result = rw (r.result, restore_ticks) r'.result; valid = r'.valid }
