-- ===== src/Importer/Tick/Averages.antt =====
-- internal/importer/history_manager.go and internal/domain/tick.go: the history of ticks and their
-- averages, over rings of live addresses.
use exchange_data_importer.Prelude.{
  ℕ, zero, suc, ◌+◌, ◌-◌, ◌≤◌, ◌<◌, String, ◌≡◌, refl, sym, ◌∙◌, subst, inl, inr, Option, none,
  some, List, [], ◌∷◌, arith, ltb, leb, tests, Bool-cases, Option-cases, length, get_elem?, set,
  drop, last?, All, All-append, length-set, get_elem?-set_ne, get_elem?-set-some, some_of_lt-length,
  All-drop, All-last?, lookup,
}
use exchange_data_importer.Prelude.Int.{pos}
use native.Mathlib.Decide.{ℕ_discrete}
use exchange_data_importer.Float.{Float}
use exchange_data_importer.Ring.{Ring, len, push}
use exchange_data_importer.Ring.Refine.{
  Holds, push_list, push-Holds, last-Holds, at-Holds, len-Holds,
}
use exchange_data_importer.Domain.Ticker.{Tick, Heap}
use exchange_data_importer.Domain.Indicators.{
  Sums, no_sums, add_sums, sum_tickers, tick_at, sum_ask_changes, set_avg_buy10, set_averages,
  calculate_tick,
}
use exchange_data_importer.Importer.History.{add_tick_history, get_last_tick}
use exchange_data_importer.Time.{after}
use exchange_data_importer.Utils.{round}
use exchange_data_importer.Importer.Tick.Below.{AreBelow, AreBelow-lookup}
use exchange_data_importer.Importer.Tick.Workers.{HasLive}

-- A ring of live addresses of ticks.
pub record IsLiveRing (n : ℕ) (r : Ring ℕ) : Type 0 where
  pub items : List ℕ
  pub holds : Holds r items
  pub live : All (λ p. p < n) items

All-get-below :
    (n : ℕ) (xs : List ℕ) (i : ℕ) {a : ℕ} → All (λ p. p < n) xs → get_elem? xs i ≡ some a → a < n
All-get-below n [] i h e = cc
All-get-below n (x ∷ xs) zero h e = subst (λ a. a < n) (cc) h.0
All-get-below n (x ∷ xs) (suc i) h e = All-get-below n xs i h.1 e

pub push-IsLiveRing :
    (n : ℕ) (r : Ring ℕ) (p : ℕ)
    → IsLiveRing n r
    → p < n
    → (r' : Ring ℕ) × (push r p ≡ some r') × IsLiveRing n r'
push-IsLiveRing n r p b lp =
    let (r', e, holds) = push-Holds r b.items p b.holds in
    (
      r',
      e,
      record {
        items = push_list r.capacity b.items p;
        holds = holds;
        live = elim (Bool-cases (ltb (length b.items) r.capacity)) [
          | inl s ↦ rw s (All-append (λ q. q < n) b.items (p ∷ []) b.live (lp, tt))
          | inr s ↦ rw s (
              All-append (λ q. q < n) (drop 1 b.items) (p ∷ [])
                (All-drop (λ q. q < n) b.items b.live) (lp, tt))
        ];
      },
    )

pub grow-IsLiveRing : (n k : ℕ) (r : Ring ℕ) → n ≤ k → IsLiveRing n r → IsLiveRing k r
grow-IsLiveRing n k r le b = record {
  items = b.items;
  holds = b.holds;
  live = below b.items b.live;
}
  where
    below : (xs : List ℕ) → All (λ p. p < n) xs → All (λ p. p < k) xs
    below [] live = tt
    below (x ∷ xs) live = (omega (arith, le, live.0), below xs live.1)

module _ {F : Type 0} ⦃f : Float F⦄ where
  -- The ticks' maps point at live tickers.
  pub record HaveLive (n : ℕ) (ticks : List (Tick F)) : Type 0 where
    pub data_live : (p : ℕ) (t : Tick F) → get_elem? ticks p ≡ some t → AreBelow n t.data_

  pub HaveLive-set :
      (n : ℕ) (ticks : List (Tick F)) (p : ℕ) (t t' : Tick F)
      → HaveLive n ticks
      → get_elem? ticks p ≡ some t
      → t'.data_ ≡ t.data_
      → HaveLive n (set ticks p t')
  HaveLive-set n ticks p t t' d e same = record {
    data_live = λ k u x. elim (ℕ_discrete p k) [
      | yes here ↦
          let it : t' ≡ u = cc (get_elem?-set-some ticks p t' e, here, x) in
          subst (λ v. AreBelow n v.data_) it (rw same (d.data_live p t e))
      | no there ↦ d.data_live k u (sym (get_elem?-set_ne ticks t' there) ∙ x)
    ];
  }

  pub get_last_tick_total :
      (h : Heap F) (ticks : List (Tick F)) (r : Ring ℕ)
      → IsLiveRing (length ticks) r
      → HaveLive (length h) ticks
      → (t : Option (Tick F)) × (get_last_tick ticks r ≡ some t) × HasLive h t
  unfolding get_last_tick
  get_last_tick_total h ticks r b d =
      let e = last-Holds r b.items b.holds in
      elim (Option-cases (last? b.items)) [
        | inl empty ↦ (none, cc, tt)
        | inr (q, newest) ↦
            let (t, e2) =
              some_of_lt-length ticks q (All-last? (λ p. p < length ticks) b.items b.live newest) in
            (some t, cc, d.data_live q t e2)
      ]

  pub add_tick_history_total :
      (ticks : List (Tick F)) (r : Ring ℕ) (p : ℕ)
      → IsLiveRing (length ticks) r
      → p < length ticks
      → (r' : Ring ℕ) × (add_tick_history ticks r p ≡ some r') × IsLiveRing (length ticks) r'
  unfolding add_tick_history
  add_tick_history_total ticks r p b lp =
      let e = last-Holds r b.items b.holds in
      let (t, e1) = some_of_lt-length ticks p lp in
      let (r', e3, b') = push-IsLiveRing (length ticks) r p b lp in
      elim (Option-cases (last? b.items)) [
        | inl empty ↦ (r', cc, b')
        | inr (q, newest) ↦
            let (last_tick, e2) =
              some_of_lt-length ticks q (All-last? (λ p. p < length ticks) b.items b.live newest) in
            elim (Bool-cases (after last_tick.start_at t.start_at)) [
              | inl late ↦ (r, cc, b)
              | inr fresh ↦ (r', cc, b')
            ]
      ]

  tick_at_total :
      (ticks : List (Tick F)) (r : Ring ℕ) (i : ℕ)
      → IsLiveRing (length ticks) r
      → i < len r
      → (p : ℕ) × (t : Tick F) × (tick_at ticks r i ≡ some t) × (get_elem? ticks p ≡ some t)
  unfolding tick_at
  tick_at_total ticks r i b li =
      let (p, e) = some_of_lt-length b.items i (omega (arith, len-Holds r b.items b.holds)) in
      let (t, e2) = some_of_lt-length ticks p (All-get-below (length ticks) b.items i b.live e) in
      (p, t, rw (at-Holds r b.items i b.holds, e) e2, e2)

  sum_ask_changes_total :
      (ticks : List (Tick F)) (r : Ring ℕ) (i n : ℕ) (sum : F)
      → IsLiveRing (length ticks) r
      → i + n ≤ len r
      → (out : F) × (sum_ask_changes ticks r i n sum ≡ some out)
  unfolding sum_ask_changes
  sum_ask_changes_total ticks r i zero sum b le = (sum, refl)
  sum_ask_changes_total ticks r i (suc n) sum b le =
      let (p, t, e, x) = tick_at_total ticks r i b (omega arith) in
      let (out, e2) =
        sum_ask_changes_total ticks r (i + 1) n (f.add sum t.avg.ask_change) b (omega arith) in
      (out, cc (e, e2))

  set_avg_buy10_total :
      (ticks : List (Tick F)) (r : Ring ℕ) (t : Tick F)
      → IsLiveRing (length ticks) r
      → (t' : Tick F) × (set_avg_buy10 ticks r t ≡ some t') × (t'.data_ ≡ t.data_)
  unfolding set_avg_buy10
  set_avg_buy10_total ticks r t b = elim (Bool-cases (leb 10 (len r))) [
    | inr short ↦ (t, cc, refl)
    | inl long ↦
        let (sum, e) =
          sum_ask_changes_total ticks r (len r - 10) 10 (f.lit (pos 0)) b (omega tests) in
        (record t { avg_buy10 = round (f.div sum (f.lit (pos 10))) (pos 6) }, cc, refl)
  ]

  sum_tickers_total :
      (h : Heap F) (data_ prev : List (String × ℕ)) (s : Sums F)
      → AreBelow (length h) data_
      → AreBelow (length h) prev
      → (out : Sums F) × (sum_tickers h data_ prev s ≡ some out)
  unfolding sum_tickers
  sum_tickers_total h [] prev s live was = (s, refl)
  sum_tickers_total h ((name, p) ∷ rest) prev s live was =
      let (cur, e) = some_of_lt-length h p live.0 in
      elim (Option-cases (lookup cur.symbol prev)) [
        | inl missing ↦
            let (out, e2) = sum_tickers_total h rest prev s live.1 was in (out, cc (e, missing, e2))
        | inr (q, found) ↦
            let (old, e3) =
              some_of_lt-length h q (AreBelow-lookup (length h) prev cur.symbol q was found) in
            let (out, e2) = sum_tickers_total h rest prev (add_sums s cur old) live.1 was in
            (out, cc (e, found, e3, e2))
      ]

  data-set_averages : (t : Tick F) (s : Sums F) → (set_averages t s).data_ ≡ t.data_
  unfolding set_averages
  data-set_averages t s = ground arith

  -- `CalculateIndicators` of a tick: no panic, and a change of that tick only, that keeps its map.
  pub calculate_tick_total :
      (ticks : List (Tick F)) (h : Heap F) (p : ℕ) (r : Ring ℕ)
      → IsLiveRing (length ticks) r
      → HaveLive (length h) ticks
      → p < length ticks
      → (ticks' : List (Tick F)) × (calculate_tick ticks h p r ≡ some ticks')
        × (length ticks' ≡ length ticks)
        × HaveLive (length h) ticks'
  unfolding calculate_tick
  calculate_tick_total ticks h p r b d lp = elim (Bool-cases (ltb (len r) 2)) [
    | inl short ↦ (ticks, cc, refl, d)
    | inr long ↦
        let (k, prev, e1, at_k) = tick_at_total ticks r (len r - 2) b (omega tests) in
        let (t, e2) = some_of_lt-length ticks p lp in
        let (t1, e3, same) = set_avg_buy10_total ticks r t b in
        let (s, e4) =
          sum_tickers_total h t.data_ prev.data_ no_sums (d.data_live p t e2)
            (d.data_live k prev at_k) in
        (
          set ticks p (set_averages t1 s),
          cc,
          length-set ticks p (set_averages t1 s),
          HaveLive-set (length h) ticks p t (set_averages t1 s) d e2
              (data-set_averages t1 s ∙ same),
        )
  ]
