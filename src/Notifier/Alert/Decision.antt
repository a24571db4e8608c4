-- ===== src/Notifier/Alert/Decision.antt =====
-- internal/notifier/strategies/alert.go: when an alert is sent.
use exchange_data_importer.Prelude.{
  false, Option, if◌then◌else◌, ◌≢◌, ◌↔◌, All, some_of_lt-length, Option-cases, subst, refl, none,
  ◌<◌, ℕ, String, ◌≡◌, ◌⊎◌, inl, inr, true, some, List, [], ◌∷◌, arith, ltb, Bool-cases, length,
  get_elem?,
}
use exchange_data_importer.Prelude.Partial.{bind_some}
use exchange_data_importer.Float.{Float}
use exchange_data_importer.Domain.Ticker.{Ticker, Tick, Heap}
use exchange_data_importer.Notifier.Alert.{
  Thresholds, TickerPart, Line, format_ticker_alert, significant, is_market_move, is_slow_move,
  alert_lines, format_tick_alert,
}

module _ {F : Type 0} ⦃f : Float F⦄ where
  -- A ticker of the tick that moved by the threshold or more.
  pub data HasMover (h : Heap F) (threshold : F) : List (String × ℕ) → Type 0 where
    here :
        (name : String) (p : ℕ) (t : Ticker F) (rest : List (String × ℕ))
        → get_elem? h p ≡ some t
        → f.le threshold (f.abs t.change_1m) ≡ true
        → HasMover h threshold ((name, p) ∷ rest)
    there :
        (entry : String × ℕ) (rest : List (String × ℕ))
        → HasMover h threshold rest
        → HasMover h threshold (entry ∷ rest)

  significant-some :
      (h : Heap F) (threshold : F) (data_ : List (String × ℕ)) (parts : List (TickerPart F))
      → significant h threshold data_ ≡ some parts
      → ltb 0 (length parts) ≡ true
      → HasMover h threshold data_
  unfolding significant
  significant-some h threshold [] parts e some_ = ground arith
  significant-some h threshold ((name, p) ∷ rest) parts e some_ =
      let (t, e1, h1) = bind_some (get_elem? h p) _ e in
      let (others, e2, h2) = bind_some (significant h threshold rest) _ h1 in
      elim (Bool-cases (f.le threshold (f.abs t.change_1m))) [
        | inl moved ↦ here name p t rest e1 moved
        | inr still ↦
            there (name, p) rest (significant-some h threshold rest others e2 (ground arith))
      ]

  alert_lines-some :
      (th : Thresholds F) (t : Tick F) (parts : List (TickerPart F)) (lines : List (Line F))
      → alert_lines th t parts ≡ some lines
      → (is_market_move th t ≡ true) ⊎ ((is_slow_move th t ≡ true) ⊎ (ltb 0 (length parts) ≡ true))
  unfolding alert_lines
  alert_lines-some th t parts lines e = ground arith

  is_market_move_lem :
      (th : Thresholds F) (t : Tick F)
      → is_market_move th t ≡ true
      → f.le th.avg_price_1m_change (f.abs t.avg.change_1m) ≡ true
  unfolding is_market_move
  is_market_move_lem th t e = e

  is_slow_move_lem :
      (th : Thresholds F) (t : Tick F)
      → is_slow_move th t ≡ true
      → f.le th.avg_price_20m_change (f.abs t.avg.change_20m) ≡ true
  unfolding is_slow_move
  is_slow_move_lem th t e = e

  significant-moving :
      (h : Heap F) (threshold : F) (data_ : List (String × ℕ)) (parts : List (TickerPart F))
      → HasMover h threshold data_
      → significant h threshold data_ ≡ some parts
      → ltb 0 (length parts) ≡ true
  unfolding significant
  significant-moving h threshold [] parts m s = elim m [ ]
  significant-moving h threshold ((name, p) ∷ rest) parts (here _ _ t _ e moved) s =
      let (t', e1, h1) = bind_some (get_elem? h p) _ s in
      let (others, e2, h2) = bind_some (significant h threshold rest) _ h1 in
      let same : t ≡ t' = cc in
      let moved' = subst (λ k. f.le threshold (f.abs k.change_1m) ≡ true) same moved in ground arith
  significant-moving h threshold ((name, p) ∷ rest) parts (there _ _ m) s =
      let (t', e1, h1) = bind_some (get_elem? h p) _ s in
      let (others, e2, h2) = bind_some (significant h threshold rest) _ h1 in
      let some_ = significant-moving h threshold rest others m e2 in ground arith

  significant_total :
      (h : Heap F) (threshold : F) (data_ : List (String × ℕ))
      → All (λ e. e.1 < length h) data_
      → (parts : List (TickerPart F)) × (significant h threshold data_ ≡ some parts)
  unfolding significant
  significant_total h threshold [] live = ([], refl)
  significant_total h threshold ((name, p) ∷ rest) live =
      let (t, e) = some_of_lt-length h p live.0 in
      let (parts, e') = significant_total h threshold rest live.1 in
      (
        if f.le threshold (f.abs t.change_1m) then format_ticker_alert t ∷ parts else parts,
        rw (e, e', significant),
      )

  alert_lines-none :
      (th : Thresholds F) (t : Tick F) (parts : List (TickerPart F))
      → alert_lines th t parts ≡ none
      → (is_market_move th t ≡ false) × (is_slow_move th t ≡ false) × (ltb 0 (length parts) ≡ false)
  unfolding alert_lines
  alert_lines-none th t parts e = ground arith

  -- What raises an alert.
  pub data HasCause (h : Heap F) (th : Thresholds F) (t : Tick F) : Type 0 where
    market_moved : f.le th.avg_price_1m_change (f.abs t.avg.change_1m) ≡ true → HasCause h th t
    market_moved_slowly :
        f.le th.avg_price_20m_change (f.abs t.avg.change_20m) ≡ true → HasCause h th t
    ticker_moved : HasMover h th.ticker_price_1m_change t.data_ → HasCause h th t

  cause_of :
      (h : Heap F) (th : Thresholds F) (t : Tick F) (parts : List (TickerPart F))
      (lines : List (Line F))
      → significant h th.ticker_price_1m_change t.data_ ≡ some parts
      → alert_lines th t parts ≡ some lines
      → HasCause h th t
  cause_of h th t parts lines e1 e = elim (alert_lines-some th t parts lines e) [
    | inl market ↦ market_moved (is_market_move_lem th t market)
    | inr (inl slow) ↦ market_moved_slowly (is_slow_move_lem th t slow)
    | inr (inr some_) ↦
        ticker_moved (significant-some h th.ticker_price_1m_change t.data_ parts e1 some_)
  ]

  no_cause :
      (h : Heap F) (th : Thresholds F) (t : Tick F) (parts : List (TickerPart F))
      → significant h th.ticker_price_1m_change t.data_ ≡ some parts
      → alert_lines th t parts ≡ none
      → ¬ HasCause h th t
  unfolding is_market_move is_slow_move
  no_cause h th t parts e1 e (market_moved m) = let (a, b, c) = alert_lines-none th t parts e in cc
  no_cause h th t parts e1 e (market_moved_slowly m) =
      let (a, b, c) = alert_lines-none th t parts e in cc
  no_cause h th t parts e1 e (ticker_moved m) =
      let (a, b, c) = alert_lines-none th t parts e in
      let d = significant-moving h th.ticker_price_1m_change t.data_ parts m e1 in cc

  -- For a tick whose tickers are live, the strategy answers without a panic, and with an alert
  -- exactly when the market moved over a minute or over twenty by the threshold, or one of the
  -- tick's tickers did over a minute. Liquidations alone raise none.
  pub format_tick_alert_iff :
      (h : Heap F) (th : Thresholds F) (t : Tick F)
      → All (λ e. e.1 < length h) t.data_
      → (out : Option (List (Line F))) × (format_tick_alert h th (some t) ≡ some out)
        × ((out ≢ none) ↔ HasCause h th t)
  unfolding format_tick_alert
  format_tick_alert_iff h th t live =
      let (parts, e) = significant_total h th.ticker_price_1m_change t.data_ live in
      (
        alert_lines th t parts,
        rw e,
        elim (Option-cases (alert_lines th t parts)) [
          | inl none_ ↦ ((λ k. absurd (k none_)), (λ c. absurd (no_cause h th t parts e none_ c)))
          | inr (lines, some_) ↦ ((λ k. cause_of h th t parts lines e some_), (λ c k. cc))
        ],
      )
