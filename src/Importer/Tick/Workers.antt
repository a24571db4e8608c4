-- ===== src/Importer/Tick/Workers.antt =====
-- internal/importer/process_tick.go and process_ticker.go: the workers that build a tick's tickers,
-- over the invariant of the ticker buffers.
use exchange_data_importer.Prelude.{
  ℕ, ◌+◌, ◌-◌, ◌≤◌, ◌<◌, String, ◌≡◌, refl, ap, ap₂, ◌∙◌, inl, inr, Option, none, some, List, [],
  ◌∷◌, ◌++◌, map, arith, ltb, tests, Bool-cases, Option-cases, length, get_elem?, set, All,
  length-append, get_elem?-append_left, some_of_lt-length, lookup, insert,
}
use exchange_data_importer.Prelude.Int.{negsuc}
use exchange_data_importer.Prelude.Partial.{bind_some}
use exchange_data_importer.Float.{Float}
use exchange_data_importer.Time.{Time, truncate, minute}
use exchange_data_importer.Ring.{Ring, len}
use exchange_data_importer.Exchanges.{ExchangeTicker}
use exchange_data_importer.Domain.Ticker.{Ticker, Tick, Heap, validate, set_ticker}
use exchange_data_importer.Domain.Indicators.{
  ticker_at, extremes, indicators, long_indicators, calculate_ticker,
}
use exchange_data_importer.Domain.Indicators.Total.{IsLive, indicators_total}
use exchange_data_importer.Importer.History.{TickerHistory, get_buffer, get_or_create_buffer}
use exchange_data_importer.Importer.Minutes.{
  IsBuffer, IsHistory, SameMinutes, set-SameMinutes, IsHistory-SameMinutes, minute_at, minute_of,
}
use exchange_data_importer.Importer.OnePerMinute.{update_ticker-Kept, get_or_create-IsBuffer}
use exchange_data_importer.Importer.Tick.Below.{
  AreBelow, AreBelow-lookup, AreBelow-insert, AreBelow-grow,
}
use exchange_data_importer.Importer.Tick.{fresh_ticker, admit_ticker, build_ticker, build_tickers}

module _ {F : Type 0} ⦃f : Float F⦄ where
  -- The tickers that the previous tick points at are there.
  abbrev pub HasLive : Heap F → Option (Tick F) → Type 0
  HasLive h none = Unit
  HasLive h (some t) = AreBelow (length h) t.data_

  HasLive-grow :
      (h h' : Heap F) (t : Option (Tick F)) → length h ≤ length h' → HasLive h t → HasLive h' t
  HasLive-grow h h' none le live = tt
  HasLive-grow h h' (some t) le live = AreBelow-grow (length h) (length h') t.data_ le live

  long_indicators_created_at :
      (h : Heap F) (r : Ring ℕ) (t t' : Ticker F)
      → long_indicators h r t ≡ some t'
      → t'.created_at ≡ t.created_at
  unfolding long_indicators
  long_indicators_created_at h r t t' e = ground arith

  indicators_created_at :
      (h : Heap F) (r : Ring ℕ) (t t' : Ticker F) (q : ℕ)
      → indicators h r t q ≡ some t'
      → t'.created_at ≡ t.created_at
  unfolding indicators
  indicators_created_at h r t t' q e =
      let (before, e1, k1) = bind_some (ticker_at h r (len r - 2)) _ e in
      let (lohi, e2, k2) =
        bind_some
          (extremes h r (len r - 10) (len r - (len r - 10)) f.max_float64
            (f.mul (f.lit (negsuc 0)) f.max_float64))
          _ k1 in
      let (prev, e3, k3) = bind_some (get_elem? h q) _ k2 in long_indicators_created_at h r _ t' k3

  unchanged : (h : Heap F) → SameMinutes h h
  unchanged h = record { size = refl; same = λ p. refl }

  calculate_ticker_total :
      (h : Heap F) (p : ℕ) (r : Ring ℕ) (last_tick : Option (Tick F))
      → p < length h
      → IsLive h r
      → HasLive h last_tick
      → (h' : Heap F) × (calculate_ticker h p r last_tick ≡ some h') × SameMinutes h h'
  unfolding calculate_ticker
  calculate_ticker_total h p r none lp live has = (h, refl, unchanged h)
  calculate_ticker_total h p r (some last_tick) lp live has =
      let (t, e) = some_of_lt-length h p lp in
      elim (Option-cases (lookup t.symbol last_tick.data_)) [
        | inl missing ↦ (h, cc, unchanged h)
        | inr (q, found) ↦ elim (Bool-cases (ltb (len r) 2)) [
          | inl short ↦ (h, cc, unchanged h)
          | inr long ↦
              let lq : q < length h =
                AreBelow-lookup (length h) last_tick.data_ t.symbol q has found in
              let (prev, eq_) = some_of_lt-length h q lq in
              let (t', e2, x, ask, bid) = indicators_total h r live t prev q (omega tests) eq_ in
              (
                set h p t',
                cc,
                set-SameMinutes h p t t' e
                    (ap (λ k. truncate k minute) (indicators_created_at h r t t' q e2)),
              )
        ]
      ]

  -- New tickers change nothing for the buffers.
  pub grow-IsHistory : (h ts : Heap F) (m : TickerHistory) → IsHistory h m → IsHistory (h ++ ts) m
  grow-IsHistory h ts m i = record { buffer = λ name r e. grow (i.buffer name r e) }
    where
      minutes :
          (xs : List ℕ)
          → All (λ p. p < length h) xs
          → map (minute_at (h ++ ts)) xs ≡ map (minute_at h) xs
      minutes [] live = refl
      minutes (x ∷ xs) live =
          ap₂ (λ a b. a ∷ b) (ap minute_of (get_elem?-append_left h ts x live.0))
            (minutes xs live.1)

      below : (xs : List ℕ) → All (λ p. p < length h) xs → All (λ p. p < length (h ++ ts)) xs
      below [] live = tt
      below (x ∷ xs) live = (omega (arith, length-append h ts, live.0), below xs live.1)

      grow : {r : Ring ℕ} → IsBuffer h r → IsBuffer (h ++ ts) r
      grow b = record {
        items = b.items;
        holds = b.holds;
        room = b.room;
        live = below b.items b.live;
        increasing = rw (minutes b.items b.live) b.increasing;
      }

  -- What one worker leaves behind: a larger heap, the invariant, and the new ticker or an error.
  pub record Admitted (h : Heap F) (out : Option (Heap F × TickerHistory)) : Type 0 where
    pub heap : Heap F
    pub history : TickerHistory
    pub result : out ≡ some (heap, history)
    pub longer : length heap ≡ length h + 1
    pub valid : IsHistory heap history

  admit_ticker-Admitted :
      (h : Heap F) (m : TickerHistory) (last_tick : Option (Tick F)) (t : Ticker F)
      → IsHistory h m
      → HasLive h last_tick
      → Admitted h (admit_ticker h m last_tick t)
  unfolding admit_ticker get_buffer
  admit_ticker-Admitted h m last_tick t i has =
      let h0 = h ++ t ∷ [] in
      let p = length h in
      let more : length h0 ≡ length h + 1 = omega (arith, length-append h (t ∷ [])) in
      let k = update_ticker-Kept h0 m p (grow-IsHistory h (t ∷ []) m i) (omega arith) in
      let size : length k.heap ≡ length h + 1 = k.minutes.size ∙ more in
      let (b, i2) = get_or_create-IsBuffer k.heap k.history t.symbol k.valid in
      let live : IsLive k.heap (get_or_create_buffer k.history t.symbol).0 = record {
        items = b.items;
        holds = b.holds;
        live = b.live;
      } in
      let (h2, e2, s2) =
        calculate_ticker_total k.heap p (get_or_create_buffer k.history t.symbol).0 last_tick
          (omega arith) live (HasLive-grow h k.heap last_tick (omega arith) has) in
      record {
        heap = h2;
        history = (get_or_create_buffer k.history t.symbol).1;
        result = cc (k.result, e2);
        longer = s2.size ∙ size;
        valid = IsHistory-SameMinutes k.heap h2 (get_or_create_buffer k.history t.symbol).1 s2 i2;
      }

  -- What the workers leave behind.
  pub record Built (h : Heap F) (out : Option (Heap F × TickerHistory × List (String × ℕ)))
      : Type 0 where
    pub heap : Heap F
    pub history : TickerHistory
    pub built : List (String × ℕ)
    pub result : out ≡ some (heap, history, built)
    pub longer : length h ≤ length heap
    pub valid : IsHistory heap history
    pub live : AreBelow (length heap) built

  -- The workers of a tick never panic, where the ticker buffers satisfy their invariant, the
  -- previous tick points at live tickers and so does what is built already: they keep the
  -- invariant, only add to the heap, and the tick's data points at live tickers.
  pub build_tickers-Built :
      (h : Heap F) (m : TickerHistory) (start_at : Time) (last_tick : Option (Tick F))
      → (l : List (ExchangeTicker F)) (built : List (String × ℕ)) → IsHistory h m
      → HasLive h last_tick
      → AreBelow (length h) built
      → Built h (build_tickers h m start_at last_tick l built)
  unfolding build_tickers build_ticker set_ticker
  build_tickers-Built h m start_at last_tick [] built i has live = record {
    heap = h;
    history = m;
    built = built;
    result = refl;
    longer = omega arith;
    valid = i;
    live = live;
  }
  build_tickers-Built h m start_at last_tick (e ∷ rest) built i has live =
      elim (Option-cases (validate (fresh_ticker start_at e))) [
        | inr (bad, x) ↦
            let b = build_tickers-Built h m start_at last_tick rest built i has live in
            record {
              heap = b.heap;
              history = b.history;
              built = b.built;
              result = cc (b.result);
              longer = b.longer;
              valid = b.valid;
              live = b.live;
            }
        | inl fine ↦
            let a = admit_ticker-Admitted h m last_tick (fresh_ticker start_at e) i has in
            let le : length h ≤ length a.heap = omega (arith, a.longer) in
            let b =
              build_tickers-Built a.heap a.history start_at last_tick rest
                (insert e.symbol (length h) built) a.valid (HasLive-grow h a.heap last_tick le has)
                (AreBelow-insert (length a.heap) built e.symbol (length h)
                  (AreBelow-grow (length h) (length a.heap) built le live)
                  (omega (arith, a.longer))) in
            record {
              heap = b.heap;
              history = b.history;
              built = b.built;
              result = cc (a.result, b.result);
              longer = omega (arith, b.longer);
              valid = b.valid;
              live = b.live;
            }
      ]
