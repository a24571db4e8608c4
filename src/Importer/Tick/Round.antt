-- ===== src/Importer/Tick/Round.antt =====
-- internal/importer/process_tick.go and internal/domain/tick.go: a whole round of the import, over an
-- invariant of the importer's state.
use exchange_data_importer.Prelude.{
  ℕ, ◌+◌, ◌≤◌, ◌≡◌, refl, sym, ◌∙◌, subst, inl, inr, Option, some, List, [], ◌∷◌, ◌++◌, arith, ltb,
  ltb→lt, tests, Bool-cases, length, set, length-append, length-set, get_elem?-append_length,
  get_elem?-append_left, lt-length_of_some, some_of_lt-length,
}
use exchange_data_importer.Float.{Float}
use exchange_data_importer.Domain.Ticker.{Tick}
use exchange_data_importer.Time.{sub_time, milliseconds}
use exchange_data_importer.Importer.Tick.Below.{AreBelow, AreBelow-grow}
use exchange_data_importer.Importer.Tick.Workers.{build_tickers-Built}
use exchange_data_importer.Errors.{Error, wrapped, Result-cases}
use exchange_data_importer.Exchanges.{ExchangeTicker}
use exchange_data_importer.Domain.Liquidation.{LiquidationsHistory}
use exchange_data_importer.Importer.Minutes.{IsHistory}
use exchange_data_importer.Importer.Tick.{
  State, World, Effect, new_tick, deliver, set_liquidations, build_tick, import_fetched,
  import_tick,
}
use exchange_data_importer.Importer.Outcome.{
  IsDelivery, import_tick_ok, import_tick_err, import_tick-IsDelivery,
}
use exchange_data_importer.Importer.Tick.Averages.{
  IsLiveRing, HaveLive, HaveLive-set, grow-IsLiveRing, get_last_tick_total, add_tick_history_total,
  calculate_tick_total,
}

module _ {F : Type 0} ⦃f : Float F⦄ where
  -- The state of the importer: valid ticker buffers, a ring of live ticks, and ticks of live tickers.
  pub record IsState (s : State F) : Type 0 where
    pub tickers_valid : IsHistory s.tickers s.ticker_history
    pub ring_live : IsLiveRing (length s.ticks) s.tick_history
    pub ticks_live : HaveLive (length s.tickers) s.ticks

  pub HaveLive-append :
      (n k : ℕ) (ticks : List (Tick F)) (t : Tick F)
      → n ≤ k
      → HaveLive n ticks
      → AreBelow k t.data_
      → HaveLive k (ticks ++ t ∷ [])
  HaveLive-append n k ticks t le d live = record {
    data_live = λ p u x. elim (Bool-cases (ltb p (length ticks))) [
      | inl old ↦ AreBelow-grow n k u.data_ le (
          d.data_live p u
            (sym (get_elem?-append_left ticks (t ∷ []) p (ltb→lt p (length ticks) old)) ∙ x))
      | inr new_ ↦
          let size : length (ticks ++ t ∷ []) ≡ length ticks + 1 =
            omega (arith, length-append ticks (t ∷ [])) in
          let it : p ≡ length ticks =
            omega (tests, lt-length_of_some (ticks ++ t ∷ []) p x, size) in
          let same : t ≡ u = cc (get_elem?-append_length ticks t [], it, x) in
          subst (λ v. AreBelow k v.data_) same live
    ];
  }

  pub record Round (s : State F) (out : Option (State F)) : Type 0 where
    pub state : State F
    pub result : out ≡ some state
    pub longer : length state.ticks ≡ length s.ticks + 1
    pub valid : IsState state

  build_tick-Round :
      (s : State F) (t : Tick F) (lh : LiquidationsHistory × Option Error)
      (l : List (ExchangeTicker F))
      → IsState s
      → t.data_ ≡ []
      → Round s (build_tick s t lh l)
  unfolding build_tick set_liquidations
  build_tick-Round s t lh l i empty =
      let (last_tick, e1, has) =
        get_last_tick_total s.tickers s.ticks s.tick_history i.ring_live i.ticks_live in
      let b =
        build_tickers-Built s.tickers s.ticker_history t.start_at last_tick l t.data_
          i.tickers_valid has (rw empty tt) in
      let t2 = record (set_liquidations t lh.0) { data_ = b.built } in
      let ticks = s.ticks ++ t2 ∷ [] in
      let size : length ticks ≡ length s.ticks + 1 =
        omega (arith, length-append s.ticks (t2 ∷ [])) in
      let d =
        HaveLive-append (length s.tickers) (length b.heap) s.ticks t2 b.longer i.ticks_live
          b.live in
      let (r, e2, rb) =
        add_tick_history_total ticks s.tick_history (length s.ticks)
          (grow-IsLiveRing (length s.ticks) (length ticks) s.tick_history (omega arith) i.ring_live)
          (omega arith) in
      let (ticks', e3, size', d') =
        calculate_tick_total ticks b.heap (length s.ticks) r rb d (omega arith) in
      record {
        state = record {
          tickers = b.heap;
          ticks = ticks';
          tick_history = r;
          ticker_history = b.history;
        };
        result = cc (e1, b.result, e2, e3);
        longer = size' ∙ size;
        valid = record {
          tickers_valid = b.valid;
          ring_live = grow-IsLiveRing (length ticks) (length ticks') r (omega arith) rb;
          ticks_live = d';
        };
      }

  -- What a round leaves behind: a result, with the invariant, and one of the two outcomes.
  pub record Imported (w : World F) (out : Option (State F × Option Error × List (Effect F)))
      : Type 0 where
    pub state : State F
    pub problem : Option Error
    pub effects : List (Effect F)
    pub result : out ≡ some (state, problem, effects)
    pub valid : IsState state
    pub delivery : IsDelivery w.created_at w.stored problem effects

  import_fetched_total :
      (s : State F) (w : World F) (l : List (ExchangeTicker F))
      → IsState s
      → (s' : State F) × (problem : Option Error) × (effects : List (Effect F)) × (import_fetched s
            w l
          ≡ some (s', problem, effects))
        × IsState s'
  unfolding import_fetched new_tick
  import_fetched_total s w l i =
      let b =
        build_tick-Round s (new_tick w.start_at w.fetched_at) (w.liquidations w.start_at) l i
          refl in
      let p = length s.ticks in
      let (t, e) = some_of_lt-length b.state.ticks p (omega (arith, b.longer)) in
      let t' = record t {
        created_at = w.created_at;
        handling_duration = milliseconds (sub_time w.handled_at w.fetched_at);
      } in
      let ticks = set b.state.ticks p t' in
      (
        record b.state { ticks = ticks },
        (deliver t' w.stored).0,
        (deliver t' w.stored).1,
        cc (b.result, e),
        record {
          tickers_valid = b.valid.tickers_valid;
          ring_live =
              grow-IsLiveRing (length b.state.ticks) (length ticks) b.state.tick_history
                (omega (arith, length-set b.state.ticks p t')) b.valid.ring_live;
          ticks_live =
              HaveLive-set (length b.state.tickers) b.state.ticks p t t' b.valid.ticks_live e refl;
        },
      )

  -- A round of the import never panics, where the importer's state satisfies its invariant: valid
  -- ticker buffers with one entry for each minute, a ring of live ticks, and ticks that point at
  -- live tickers. It keeps the invariant, and does one of two things: it sends nothing out and
  -- returns an error; or it publishes one tick, whose start and fetch times are set and whose
  -- creation time is the clock's, and then hands the same tick to the repository, and returns an
  -- error exactly if the repository does.
  pub import_tick-Imported : (s : State F) (w : World F) → IsState s → Imported w (import_tick s w)
  import_tick-Imported s w i = elim (Result-cases w.fetched) [
    | inl (l, e) ↦
        let (s', problem, effects, x, valid) = import_fetched_total s w l i in
        let result = import_tick_ok s w l e ∙ x in
        record {
          state = s';
          problem = problem;
          effects = effects;
          result = result;
          valid = valid;
          delivery = import_tick-IsDelivery s s' w problem effects result;
        }
    | inr (bad, e) ↦
        let result = import_tick_err s w bad e in
        record {
          state = s;
          problem = some (wrapped "fetchTickers failed: %w" bad);
          effects = [];
          result = result;
          valid = i;
          delivery = import_tick-IsDelivery s s w _ [] result;
        }
  ]
