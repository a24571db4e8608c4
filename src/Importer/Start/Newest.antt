-- ===== src/Importer/Start/Newest.antt =====
-- internal/importer/history_manager.go: which stored ticks `initHistory` keeps in the history.
use exchange_data_importer.Prelude.{
  ℕ, zero, suc, ◌*◌, ◌≤◌, ◌<◌, ◌≡◌, refl, ap, sym, ◌∙◌, subst, inl, inr, false, none, some, List,
  [], ◌∷◌, ◌++◌, map, append_assoc, arith, ltb, Bool-cases, length, get_elem?, last?, drop,
  length-append, get_elem?-append_length, get_elem?-append_left, lt-length_of_some,
  some_of_lt-length, append-nil, Option, length-map, lookup, All,
}
use mathlib.Core.List.{map-append}
use exchange_data_importer.Float.{Float}
use exchange_data_importer.Time.{Time, after, back, minute}
use exchange_data_importer.Errors.{Result, ok}
use exchange_data_importer.Ring.{Ring, push}
use exchange_data_importer.Ring.Inv.{capacity-new, capacity-push}
use exchange_data_importer.Ring.Refine.{new-Holds, Holds, push_list, push-Holds, last-Holds}
use exchange_data_importer.Ring.History.{newest, push_list-newest}
use exchange_data_importer.Domain.Ticker.{Tick}
use exchange_data_importer.Importer.History.{new_buffer, add_tick_history}
use exchange_data_importer.Importer.Tick.{State}
use exchange_data_importer.Importer.Tick.Round.{IsState}
use exchange_data_importer.Importer.Start.{StoredTick, new_importer, restore_ticks, init_history}
use exchange_data_importer.Importer.Start.Restored.{HasTickers, placed, restore_tick-RestoredTick}

-- The addresses below `n`.
abbrev pub up_to : ℕ → List ℕ
up_to zero = []
up_to (suc n) = up_to n ++ n ∷ []

last?-append : (xs : List ℕ) (v : ℕ) → last? (xs ++ v ∷ []) ≡ some v
last?-append [] v = refl
last?-append (x ∷ []) v = refl
last?-append (x ∷ y ∷ ys) v = last?-append (y ∷ ys) v

last?-push_list : (c : ℕ) (xs : List ℕ) (v : ℕ) → last? (push_list c xs v) ≡ some v
last?-push_list c xs v = elim (Bool-cases (ltb (length xs) c)) [
  | inl e ↦ rw e (last?-append xs v)
  | inr e ↦ rw e (last?-append (drop 1 xs) v)
]

last?-newest : (c n : ℕ) → 0 < c → last? (newest c (up_to (suc n))) ≡ some n
last?-newest c n h = rw (← push_list-newest c (up_to n) n h) (last?-push_list c _ n)

module _ {F : Type 0} ⦃f : Float F⦄ where
  -- Each tick starts no earlier than the one before it, the first not before `bound`.
  abbrev pub InOrder : Time → List (StoredTick F) → Type 0
  InOrder bound [] = Unit
  InOrder bound (stored ∷ rest) = (bound ≤ stored.tick.start_at) × InOrder stored.tick.start_at rest

  -- The history is the ring of the newest of all ticks, and the last of them starts by `bound`.
  pub record IsFilled (bound : Time) (s : State F) : Type 0 where
    pub capacity : s.tick_history.capacity ≡ 25
    pub holds : Holds s.tick_history (newest 25 (up_to (length s.ticks)))
    pub started :
        (n : ℕ) (t : Tick F)
        → length s.ticks ≡ suc n
        → get_elem? s.ticks n ≡ some t
        → t.start_at ≤ bound

  module _ (ticks : List (Tick F)) (r : Ring ℕ) (t : Tick F) where
    -- A tick that starts no earlier than the newest one is pushed.
    add_tick_history-push :
        (n : ℕ)
        → Holds r (newest 25 (up_to n))
        → get_elem? ticks n ≡ some t
        → ((k : ℕ) (u : Tick F) → n ≡ suc k → get_elem? ticks k ≡ some u → u.start_at ≤ t.start_at)
        → add_tick_history ticks r n ≡ push r n
    unfolding add_tick_history
    add_tick_history-push zero h e before = cc (e, last-Holds r _ h)
    add_tick_history-push (suc k) h e before =
        let (u, e1) =
          some_of_lt-length ticks k (omega (arith, lt-length_of_some ticks (suc k) e)) in
        let le : u.start_at ≤ t.start_at = before k u refl e1 in
        let not_later : after u.start_at t.start_at ≡ false = ground arith in
        cc (e, e1, not_later, last-Holds r _ h, last?-newest 25 k (omega arith))

    add_tick_history-newest :
        (n : ℕ) (r' : Ring ℕ)
        → Holds r (newest 25 (up_to n))
        → r.capacity ≡ 25
        → add_tick_history ticks r n ≡ push r n
        → add_tick_history ticks r n ≡ some r'
        → Holds r' (newest 25 (up_to (suc n))) × (r'.capacity ≡ 25)
    add_tick_history-newest n r' h c same added =
        let pushed : push r n ≡ some r' = sym same ∙ added in
        let (r'', e, holds) = push-Holds r (newest 25 (up_to n)) n h in
        let it : r'' ≡ r' = cc (e, pushed) in
        (
          rw (← push_list-newest 25 (up_to n) n (omega arith)) (
              subst (λ x. Holds r' (push_list x (newest 25 (up_to n)) n)) c
                (subst (λ x. Holds x (push_list r.capacity (newest 25 (up_to n)) n)) it holds)),
          capacity-push r n r' pushed ∙ c,
        )

  -- A tick without its data.
  abbrev pub bare : Tick F → Tick F
  bare t = record t { data_ = [] }

  abbrev pub bare_stored : StoredTick F → Tick F
  bare_stored stored = bare stored.tick

  bare-append :
      (ticks before : List (Tick F)) (t : Tick F) (rest : List (Tick F))
      → ticks ≡ before ++ t ∷ []
      → map bare ticks ++ rest ≡ map bare before ++ bare t ∷ rest
  bare-append ticks before t rest e =
      rw (e, map-append) (append_assoc (map bare before) (bare t ∷ []) rest)

  -- The ticks of a history in order are all taken, behind those that were there.
  record Filled (s : State F) (history : List (StoredTick F)) (out : Option (State F))
      : Type 0 where
    state : State F
    result : out ≡ some state
    ticks : map bare state.ticks ≡ map bare s.ticks ++ map bare_stored history
    holds : Holds state.tick_history (newest 25 (up_to (length state.ticks)))

  restore_ticks-Filled :
      (bound : Time) (s : State F) (history : List (StoredTick F))
      → IsState s
      → IsFilled bound s
      → InOrder bound history
      → All HasTickers history
      → Filled s history (restore_ticks s history)
  unfolding restore_ticks
  restore_ticks-Filled bound s [] i b o there = record {
    state = s;
    result = refl;
    ticks = sym (append-nil _);
    holds = b.holds;
  }
  restore_ticks-Filled bound s (stored ∷ rest) i b o there =
      let one = restore_tick-RestoredTick s stored i there.0 in
      let n = length s.ticks in
      let t = placed s stored in
      let ticks = s.ticks ++ t ∷ [] in
      let size : length one.state.ticks ≡ suc n =
        rw one.ticks (omega (arith, length-append s.ticks (t ∷ []))) in
      let same =
        add_tick_history-push ticks s.tick_history t n b.holds
          (get_elem?-append_length s.ticks t [])
          (λ k u e x.
            let below : k < n = omega arith in
            let before : u.start_at ≤ bound =
              b.started k u e (sym (get_elem?-append_left s.ticks (t ∷ []) k below) ∙ x) in
            omega (arith, o.0)) in
      let (holds, capacity) =
        add_tick_history-newest ticks s.tick_history t n one.state.tick_history b.holds b.capacity
          same one.added in
      let filled : IsFilled stored.tick.start_at one.state = record {
        capacity = capacity;
        holds = subst (λ k. Holds one.state.tick_history (newest 25 (up_to k))) (sym size) holds;
        started = λ k u e x.
            let here : n ≡ k = omega (arith, size) in
            let it : some t ≡ some u =
              sym (get_elem?-append_length s.ticks t [])
              ∙ (ap (get_elem? ticks) here ∙ (ap (λ l. get_elem? l k) (sym one.ticks) ∙ x)) in
            let eq : t ≡ u = cc in subst (λ v. v.start_at ≤ stored.tick.start_at) eq (omega arith);
      } in
      let r =
        restore_ticks-Filled stored.tick.start_at one.state rest one.valid filled o.1 there.1 in
      record {
        state = r.state;
        result = rw (one.result, restore_ticks) r.result;
        ticks =
            ◌∙◌ {a = map bare r.state.ticks} r.ticks
              (bare-append one.state.ticks s.ticks t (map bare_stored rest) one.ticks);
        holds = r.holds;
      }

  -- The state that `New` makes.
  abbrev pub first_state : State F
  first_state = record { tickers = []; ticks = []; tick_history = new_buffer; ticker_history = [] }

  pub first_state-IsState : IsState first_state
  unfolding new_buffer lookup
  first_state-IsState = record {
    tickers_valid = record { buffer = λ name r e. absurd (cc e) };
    ring_live = record { items = []; holds = new-Holds 25 0 (omega arith); live = tt };
    ticks_live = record { data_live = λ p t e. absurd (cc e) };
  }

  first_state-IsFilled : IsFilled 0 first_state
  unfolding new_buffer
  first_state-IsFilled = record {
    capacity = capacity-new 25 0;
    holds = new-Holds 25 0 (omega arith);
    started = λ n t e x. absurd (omega arith);
  }

  -- The importer that `New` makes is the first state, where both repositories are made.
  pub new_importer_first : new_importer none none ≡ some first_state
  unfolding new_importer
  new_importer_first = refl

  -- In an importer that `New` made, over a repository that answers with ticks in the order of their
  -- starts, none of them with a nil ticker, `initHistory` never panics: it takes all of them, in
  -- order and as they were stored but for the tickers of their data, and its history then holds
  -- exactly the newest 25, oldest first.
  pub init_history-newest :
      (get_history_since : Time → Result (List (StoredTick F))) (now : Time)
      (history : List (StoredTick F)) (s : State F)
      → new_importer none none ≡ some s
      → get_history_since (back now (25 * minute)) ≡ ok history
      → InOrder 0 history
      → All HasTickers history
      → (s' : State F) × (init_history get_history_since now s ≡ some (s', none))
        × (map bare s'.ticks ≡ map bare_stored history)
        × Holds s'.tick_history (newest 25 (up_to (length history)))
  unfolding init_history
  init_history-newest get now history s made e o there =
      let it : first_state ≡ s = cc (made, new_importer_first) in
      let r =
        restore_ticks-Filled 0 first_state history first_state-IsState first_state-IsFilled o
          there in
      let size : length r.state.ticks ≡ length history =
        sym (length-map bare r.state.ticks)
        ∙ (ap length r.ticks ∙ length-map bare_stored history) in
      subst
        (λ x.
          (s' : State F) × (init_history get now x ≡ some (s', none))
          × (map bare s'.ticks ≡ map bare_stored history)
          × Holds s'.tick_history (newest 25 (up_to (length history))))
        it
        (
          r.state,
          cc (e, r.result),
          r.ticks,
          subst (λ n. Holds r.state.tick_history (newest 25 (up_to n))) size r.holds,
        )
