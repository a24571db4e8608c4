-- ===== src/Domain/Indicators/Total.antt =====
-- `CalculateIndicators` of a ticker in internal/domain/ticker.go, over histories of live addresses.
use exchange_data_importer.Prelude.{
  ℕ, zero, suc, ◌+◌, ◌-◌, ◌≤◌, ◌<◌, ◌≡◌, refl, sym, ◌∙◌, subst, inl, inr, some, List, [], ◌∷◌,
  arith, ltb, if◌then◌else◌, ltb→lt, Bool-cases, length, get_elem?, All, some_of_lt-length,
}
use exchange_data_importer.Prelude.Int.{pos, negsuc}
use exchange_data_importer.Float.{Float}
use exchange_data_importer.Ring.{Ring, len}
use exchange_data_importer.Ring.Refine.{Holds, at-Holds, len-Holds}
use exchange_data_importer.Utils.{round, perc_diff, calculate_rsi}
use exchange_data_importer.Domain.Ticker.{Ticker, Heap}
use exchange_data_importer.Domain.Indicators.{
  ticker_at, extremes, bid_history, long_indicators, indicators,
}

-- A history whose addresses all lie in the heap.
pub record IsLive {F : Type 0} (h : Heap F) (r : Ring ℕ) : Type 0 where
  pub items : List ℕ
  pub holds : Holds r items
  pub live : All (λ p. p < length h) items

-- What the long part leaves as it is.
pub record SameShort {F : Type 0} (t t' : Ticker F) : Type 0 where
  pub max10 : t'.max10 ≡ t.max10
  pub min10 : t'.min10 ≡ t.min10
  pub ask_change : t'.ask_change ≡ t.ask_change
  pub bid_change : t'.bid_change ≡ t.bid_change

All-get {ℓ} :
    {A : Type ℓ} (P : A → Type 0) (xs : List A) (i : ℕ) {a : A}
    → All P xs
    → get_elem? xs i ≡ some a
    → P a
All-get P [] i h e = cc
All-get P (x ∷ xs) zero h e = subst P (cc) h.0
All-get P (x ∷ xs) (suc i) h e = All-get P xs i h.1 e

module _ {F : Type 0} ⦃f : Float F⦄ (h : Heap F) (r : Ring ℕ) (live : IsLive h r) where
  pub ticker_at_total : (i : ℕ) → i < len r → (t : Ticker F) × (ticker_at h r i ≡ some t)
  unfolding ticker_at
  ticker_at_total i p =
      let inside : i < length live.items = omega (arith, len-Holds r live.items live.holds) in
      let (a, e) = some_of_lt-length live.items i inside in
      let (t, e') = some_of_lt-length h a (All-get (λ p. p < length h) live.items i live.live e) in
      (t, rw (at-Holds r live.items i live.holds, e) e')

  pub extremes_total :
      (i n : ℕ) (lo hi : F) → i + n ≤ len r → (out : F × F) × (extremes h r i n lo hi ≡ some out)
  unfolding extremes
  extremes_total i zero lo hi p = ((lo, hi), refl)
  extremes_total i (suc n) lo hi p =
      let (t, e) = ticker_at_total i (omega arith) in
      let (out, e') =
        extremes_total (i + 1) n (if f.lt t.ask lo then t.ask else lo)
          (if f.lt hi t.ask then t.ask else hi) (omega arith) in
      (out, rw (e, extremes) e')

  bid_history_total :
      (i n : ℕ) → i + n ≤ len r → (bids : List F) × (bid_history h r i n ≡ some bids)
  unfolding bid_history
  bid_history_total i zero p = ([], refl)
  bid_history_total i (suc n) p =
      let (t, e) = ticker_at_total i (omega arith) in
      let (bids, e') = bid_history_total (i + 1) n (omega arith) in
      (t.bid ∷ bids, rw (e, e', bid_history))

  long_total : (t : Ticker F) → (t' : Ticker F) × (long_indicators h r t ≡ some t') × SameShort t t'
  unfolding long_indicators
  long_total t = elim (Bool-cases (ltb 21 (len r))) [
    | inr short ↦
        (t, rw short, record { max10 = refl; min10 = refl; ask_change = refl; bid_change = refl })
    | inl long ↦
        let many : 21 < len r = ltb→lt 21 (len r) long in
        let (old, e1) = ticker_at_total (len r - 21) (omega arith) in
        let (bids, e2) = bid_history_total (len r - 20) 20 (omega arith) in
        (
          record t {
            change_20m = perc_diff t.bid old.bid (pos 2);
            rsi20 = round (calculate_rsi bids 20) (pos 1);
          },
          rw (long, e1, e2),
          record { max10 = refl; min10 = refl; ask_change = refl; bid_change = refl },
        )
  ]

  -- With a history of two or more, the indicators are computed: the extremes are those of the loop,
  -- and the changes are taken against the previous ticker.
  pub indicators_total :
      (t prev : Ticker F) (q : ℕ)
      → 2 ≤ len r
      → get_elem? h q ≡ some prev
      → (t' : Ticker F) × (indicators h r t q ≡ some t')
        × (extremes h r
              (len r - 10)
              (len r - (len r - 10))
              f.max_float64
              (f.mul (f.lit (negsuc 0)) f.max_float64)
            ≡ some (t'.min10, t'.max10))
        × (t'.ask_change ≡ perc_diff t.ask prev.ask (pos 2))
        × (t'.bid_change ≡ perc_diff t.bid prev.bid (pos 2))
  unfolding indicators
  indicators_total t prev q two e =
      let (before, e1) = ticker_at_total (len r - 2) (omega arith) in
      let ((lo, hi), e2) =
        extremes_total (len r - 10) (len r - (len r - 10)) f.max_float64
          (f.mul (f.lit (negsuc 0)) f.max_float64) (omega arith) in
      let t1 : Ticker F = record t {
        change_1m = perc_diff t.bid before.bid (pos 2);
        max10 = hi;
        min10 = lo;
        max10_diff = perc_diff t.ask hi (pos 2);
        min10_diff = perc_diff t.ask lo (pos 2);
        ask_change = perc_diff t.ask prev.ask (pos 2);
        bid_change = perc_diff t.bid prev.bid (pos 2);
      } in
      let (t', e3, same) = long_total t1 in
      (
        t',
        rw (e1, e2, e) e3,
        e2 ∙ (λ i. some (sym same.min10 i, sym same.max10 i)),
        same.ask_change,
        same.bid_change,
      )
