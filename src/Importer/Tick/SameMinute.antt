-- ===== src/Importer/Tick/SameMinute.antt =====
-- internal/importer/process_tick.go: a ticker that arrives in the minute of the newest entry of its
-- buffer, when the previous tick points at that entry.
use exchange_data_importer.Prelude.{
  ℕ, ◌≤◌, ◌<◌, String, ◌≡◌, refl, ◌∙◌, false, some, List, [], ◌∷◌, ◌++◌, arith, ltb, length,
  get_elem?, set, last?, All, get_elem?-append_length, get_elem?-append_left, get_elem?-set-some,
  lt-length_of_some, lookup,
}
use exchange_data_importer.Prelude.Int.{pos}
use exchange_data_importer.Float.{Float}
use exchange_data_importer.Time.{after, truncate, minute}
use exchange_data_importer.Ring.{Ring, len}
use exchange_data_importer.Ring.Refine.{Holds, len-Holds}
use exchange_data_importer.Utils.{perc_diff}
use exchange_data_importer.Domain.Ticker.{Ticker, Tick, Heap}
use exchange_data_importer.Domain.Indicators.{indicators, calculate_ticker}
use exchange_data_importer.Domain.Indicators.Total.{IsLive, indicators_total}
use exchange_data_importer.Importer.History.{TickerHistory, get_buffer}
use exchange_data_importer.Importer.Candle.{
  merged_of, mirrored_of, found_buffer, update_ticker_same_minute,
}
use exchange_data_importer.Importer.Tick.{admit_ticker}

All-below : (n m : ℕ) (xs : List ℕ) → n ≤ m → All (λ p. p < n) xs → All (λ p. p < m) xs
All-below n m [] le h = tt
All-below n m (x ∷ xs) le h = (omega (arith, h.0), All-below n m xs le h.1)

get_found :
    (m : TickerHistory) (name : String) (r : Ring ℕ)
    → lookup name m ≡ some r
    → get_buffer m name ≡ (r, m)
unfolding get_buffer
get_found m name r e = found_buffer m name r e

module _ {F : Type 0} ⦃f : Float F⦄ where
  -- The situation of a ticker in the minute of the newest entry `q` of its buffer, which the previous
  -- tick points at.
  pub record IsAgain (h : Heap F) (m : TickerHistory) (r : Ring ℕ) (q : ℕ) (old t : Ticker F)
      (last_tick : Tick F) : Type 0 where
    pub items : List ℕ
    pub holds : Holds r items
    pub live : All (λ p. p < length h) items
    pub found : lookup t.symbol m ≡ some r
    pub newest : last? items ≡ some q
    pub entry : get_elem? h q ≡ some old
    pub fresh : after old.created_at t.created_at ≡ false
    pub same : truncate old.created_at minute ≡ truncate t.created_at minute
    pub previous : lookup t.symbol last_tick.data_ ≡ some q
    pub two : 2 ≤ length items

  calculate_ticker_lem :
      (h : Heap F) (r : Ring ℕ) (t t' : Ticker F) (last_tick : Tick F) (p q : ℕ)
      → get_elem? h p ≡ some t
      → lookup t.symbol last_tick.data_ ≡ some q
      → 2 ≤ len r
      → indicators h r t q ≡ some t'
      → calculate_ticker h p r (some last_tick) ≡ some (set h p t')
  unfolding calculate_ticker
  calculate_ticker_lem h r t t' last_tick p q e1 e2 two e3 =
      let enough : ltb (len r) 2 ≡ false = ground arith in cc

  -- Where the previous tick still points at the newest entry of the buffer, as it does in the
  -- second tick of a minute, and the buffer holds at least two entries, a ticker of that entry's
  -- minute is admitted without a panic, and its change since the previous tick is computed between
  -- its own prices and themselves, whatever the prices of the previous tick were: the merge has by
  -- then put the new prices into the entry that the previous tick points at.
  pub admit_ticker_same_minute :
      (h : Heap F) (m : TickerHistory) (r : Ring ℕ) (q : ℕ) (old t : Ticker F) (last_tick : Tick F)
      → IsAgain h m r q old t last_tick
      → (h' : Heap F) × (t' : Ticker F) × (admit_ticker h m (some last_tick) t ≡ some (h', m))
        × (get_elem? h' (length h) ≡ some t')
        × (t'.ask_change ≡ perc_diff t.ask t.ask (pos 2))
        × (t'.bid_change ≡ perc_diff t.bid t.bid (pos 2))
  unfolding admit_ticker
  admit_ticker_same_minute h m r q old t last_tick a =
      let h0 = h ++ t ∷ [] in
      let p = length h in
      let lq : q < length h = lt-length_of_some h q a.entry in
      let (h1, e1, merged) =
        update_ticker_same_minute h0 m r a.items q p old t a.found a.holds a.newest (omega arith)
          (get_elem?-append_left h (t ∷ []) q lq ∙ a.entry) (get_elem?-append_length h t []) a.fresh
          a.same in
      let t1 = mirrored_of old t in
      let more : length h ≤ length h1 = omega (arith, lt-length_of_some h1 p merged.mirrored) in
      let live : IsLive h1 r = record {
        items = a.items;
        holds = a.holds;
        live = All-below (length h) (length h1) a.items more a.live;
      } in
      let two : 2 ≤ len r = omega (arith, len-Holds r a.items a.holds, a.two) in
      let (t', e2, x, ask, bid) =
        indicators_total h1 r live t1 (merged_of old t) q two merged.entry in
      (
        set h1 p t',
        t',
        rw (e1, get_found m t.symbol r a.found)
            (rw (calculate_ticker_lem h1 r t1 t' last_tick p q merged.mirrored a.previous two e2)
              refl),
        get_elem?-set-some h1 p t' merged.mirrored,
        ask,
        bid,
      )
