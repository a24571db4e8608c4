-- ===== src/Importer/Candle.antt =====
-- What one minute's entry holds: the prices of its ticks merged into a candle.
use exchange_data_importer.Prelude.{
  ℕ, String, ◌≡◌, refl, sym, ap, ◌∙◌, ◌≢◌, true, false, some, List, ==_iff, get_elem?, set, last?,
  get_elem?-set_ne, get_elem?-set-some, lookup,
}
use exchange_data_importer.Float.{Float}
use exchange_data_importer.Time.{after, same_time, truncate, minute}
use exchange_data_importer.Ring.{Ring}
use exchange_data_importer.Ring.Refine.{Holds, last-Holds}
use exchange_data_importer.Domain.Ticker.{Ticker, Heap}
use exchange_data_importer.Importer.History.{
  TickerHistory, get_or_create_buffer, update_minute_data, merge, mirror, update_old, update_last,
  update_ticker,
}

pub found_buffer :
    (m : TickerHistory) (name : String) (r : Ring ℕ)
    → lookup name m ≡ some r
    → get_or_create_buffer m name ≡ (r, m)
unfolding get_or_create_buffer
found_buffer m name r e = rw (e, get_or_create_buffer)

module _ {F : Type 0} ⦃f : Float F⦄ where
  -- The entry of a minute after another ticker of it, field by field: the name and the time of the
  -- event are the entry's, as are the indicators; the prices and the time of creation are new.
  abbrev pub merged_of : Ticker F → Ticker F → Ticker F
  merged_of old t = record {
    symbol = old.symbol;
    event_at = old.event_at;
    created_at = t.created_at;
    ask = t.ask;
    bid = t.bid;
    rsi20 = old.rsi20;
    ask_change = old.ask_change;
    bid_change = old.bid_change;
    change_1m = old.change_1m;
    change_20m = old.change_20m;
    max = f.max_of old.max t.ask;
    min = f.min_of old.min t.ask;
    max10 = old.max10;
    min10 = old.min10;
    max10_diff = old.max10_diff;
    min10_diff = old.min10_diff;
  }

  -- The other ticker, with the entry's new extremes.
  abbrev pub mirrored_of : Ticker F → Ticker F → Ticker F
  mirrored_of old t = record t { max = f.max_of old.max t.ask; min = f.min_of old.min t.ask }

  merge_lem : (old t : Ticker F) → merge old t ≡ merged_of old t
  unfolding merge
  merge_lem old t = refl

  mirror_lem : (old t : Ticker F) → mirror t (merge old t) ≡ mirrored_of old t
  unfolding merge mirror
  mirror_lem old t = refl

  -- The heap after a merge of the new ticker `t` at `p` into the entry `old` at `q`.
  pub record IsMerged (h : Heap F) (q p : ℕ) (old t : Ticker F) (h' : Heap F) : Type 0 where
    pub entry : get_elem? h' q ≡ some (merged_of old t)
    pub mirrored : get_elem? h' p ≡ some (mirrored_of old t)
    pub others : (k : ℕ) → k ≢ q → k ≢ p → get_elem? h' k ≡ get_elem? h k

  update_minute_data-IsMerged :
      (h : Heap F) (q p : ℕ) (old t : Ticker F)
      → q ≢ p
      → get_elem? h q ≡ some old
      → get_elem? h p ≡ some t
      → (h' : Heap F) × (update_minute_data h q p ≡ some h') × IsMerged h q p old t h'
  unfolding update_minute_data
  update_minute_data-IsMerged h q p old t ne e1 e2 =
      let h1 = set h q (merge old t) in
      let still : get_elem? h1 p ≡ some t = get_elem?-set_ne h (merge old t) ne ∙ e2 in
      (
        set h1 p (mirror t (merge old t)),
        rw (e1, e2, still),
        record {
          entry =
              get_elem?-set_ne h1 (mirror t (merge old t)) (λ e. ne (sym e))
              ∙ (get_elem?-set-some h q (merge old t) e1 ∙ ap some (merge_lem old t));
          mirrored =
              get_elem?-set-some h1 p (mirror t (merge old t)) still ∙ ap some (mirror_lem old t);
          others = λ k nq np.
              get_elem?-set_ne h1 (mirror t (merge old t)) (λ e. np (sym e))
              ∙ get_elem?-set_ne h (merge old t) (λ e. nq (sym e));
        },
      )

  update_old-IsMerged :
      (h : Heap F) (m : TickerHistory) (r : Ring ℕ) (q p : ℕ) (old t : Ticker F)
      → q ≢ p
      → get_elem? h q ≡ some old
      → get_elem? h p ≡ some t
      → after old.created_at t.created_at ≡ false
      → truncate old.created_at minute ≡ truncate t.created_at minute
      → (h' : Heap F) × (update_old h m r p t q old ≡ some (h', m)) × IsMerged h q p old t h'
  unfolding update_old
  update_old-IsMerged h m r q p old t ne e1 e2 fresh same =
      let (h', e, merged) = update_minute_data-IsMerged h q p old t ne e1 e2 in
      let same' : same_time (truncate old.created_at minute) (truncate t.created_at minute) ≡ true =
        (==_iff _ _).1 same in
      (h', rw (fresh, same', e), merged)

  update_last_lem :
      (h : Heap F) (m : TickerHistory) (r : Ring ℕ) (q p : ℕ) (old t : Ticker F)
      → get_elem? h q ≡ some old
      → update_last h m r p t (some q) ≡ update_old h m r p t q old
  unfolding update_last
  update_last_lem h m r q p old t e = rw e

  -- A ticker of the same minute as the newest entry of its buffer, and not older than it, is merged
  -- into that entry: the map of buffers stays as it is, the entry takes the new prices, the new
  -- time of creation, the larger of its maximum and the new ask and the smaller of its minimum and
  -- the new ask, and keeps the rest; the new ticker takes the maximum and minimum of the entry and
  -- keeps the rest; and no other ticker of the heap changes.
  pub update_ticker_same_minute :
      (h : Heap F) (m : TickerHistory) (r : Ring ℕ) (xs : List ℕ) (q p : ℕ) (old t : Ticker F)
      → lookup t.symbol m ≡ some r
      → Holds r xs
      → last? xs ≡ some q
      → q ≢ p
      → get_elem? h q ≡ some old
      → get_elem? h p ≡ some t
      → after old.created_at t.created_at ≡ false
      → truncate old.created_at minute ≡ truncate t.created_at minute
      → (h' : Heap F) × (update_ticker h m p ≡ some (h', m)) × IsMerged h q p old t h'
  unfolding update_ticker
  update_ticker_same_minute h m r xs q p old t found holds newest ne e1 e2 fresh same =
      let (h', e, merged) = update_old-IsMerged h m r q p old t ne e1 e2 fresh same in
      (
        h',
        rw (e2, found_buffer m t.symbol r found, last-Holds r xs holds, newest)
            (update_last_lem h m r q p old t e1 ∙ e),
        merged,
      )
