-- ===== src/Importer/Start/Runs.antt =====
-- internal/importer/importer.go: the whole import, from its start to the end of the context.
use exchange_data_importer.Prelude.{
  ◌*◌, ◌≡◌, refl, sym, subst, inl, inr, Bool, true, false, Option, some, List, [], ◌∷◌, ◌++◌, All,
}
use exchange_data_importer.Float.{Float}
use exchange_data_importer.Time.{Time, back, minute}
use exchange_data_importer.Errors.{Error, errorf, wrapped, Result, ok, err, Result-cases}
use exchange_data_importer.Importer.Tick.{State, World, Effect}
use exchange_data_importer.Importer.Outcome.{IsDelivery}
use exchange_data_importer.Importer.Tick.Round.{IsState, import_tick-Imported}
use exchange_data_importer.Importer.Start.{
  StoredTick, Turn, context_done, timer, Progress, running, stopped, wrap_progress, init_history,
  import_loop, start_tickers_import, start,
}
use exchange_data_importer.Importer.Start.Restored.{HasTickers, restore_ticks-Restored}

module _ {F : Type 0} where
  -- The loop stops at the first turn at which the context has ended.
  abbrev pub progress_of : List (Turn F) → Progress
  progress_of [] = running
  progress_of (context_done e ∷ rest) = stopped e
  progress_of (timer w ∷ rest) = progress_of rest

module _ {F : Type 0} ⦃f : Float F⦄ where
  -- What the turns send out up to the end of the context: for each, what a round may send.
  pub data AreRounds : List (Turn F) → List (Effect F) → Type 0 where
    no_turns : AreRounds [] []
    ended : (e : Error) (rest : List (Turn F)) → AreRounds (context_done e ∷ rest) []
    round :
        (w : World F) (rest : List (Turn F)) (problem : Option Error) (now later : List (Effect F))
        → IsDelivery w.created_at w.stored problem now
        → AreRounds rest later
        → AreRounds (timer w ∷ rest) (now ++ later)

  -- A run of the import: a result, with the invariant, the progress and what is sent out.
  pub record Ran (progress : Progress) (turns : List (Turn F))
      (out : Option (State F × Progress × List (Effect F))) : Type 0 where
    pub state : State F
    pub effects : List (Effect F)
    pub result : out ≡ some (state, progress, effects)
    pub valid : IsState state
    pub rounds : AreRounds turns effects

  import_loop-Ran :
      (s : State F) (turns : List (Turn F))
      → IsState s
      → Ran (progress_of turns) turns (import_loop s turns)
  unfolding import_loop
  import_loop-Ran s [] i = record {
    state = s;
    effects = [];
    result = refl;
    valid = i;
    rounds = no_turns;
  }
  import_loop-Ran s (context_done e ∷ rest) i = record {
    state = s;
    effects = [];
    result = refl;
    valid = i;
    rounds = ended e rest;
  }
  import_loop-Ran s (timer w ∷ rest) i =
      let r = import_tick-Imported s w i in
      let r' = import_loop-Ran r.state rest r.valid in
      record {
        state = r'.state;
        effects = r.effects ++ r'.effects;
        result = rw (r.result, r'.result, import_loop);
        valid = r'.valid;
        rounds = round w rest r.problem r.effects r'.effects r.delivery r'.rounds;
      }

  -- How a start goes on: it fails where the subscription or the repository does, and else runs until
  -- the context ends.
  abbrev pub course : Bool → Result (List (StoredTick F)) → List (Turn F) → Progress × List (Turn F)
  course false answer turns = (
    stopped (
        wrapped "failed to start liquidations import: %w"
          (errorf "failed to subscribe to liquidations")),
    [],
  )
  course true (err e) turns = (
    stopped (
        wrapped "failed to start tickers import: %w"
          (wrapped "failed to init history: %w" (wrapped "GetHistorySince failed: %w" e))),
    [],
  )
  course true (ok history) turns =
      (wrap_progress "failed to start tickers import: %w" (progress_of turns), turns)

  abbrev Runs :
      State F
      → (Time → Result (List (StoredTick F)))
      → Time
      → List (Turn F)
      → Bool
      → Result (List (StoredTick F))
      → Type 0
  Runs s get now turns subscribed answer =
      Ran (course subscribed answer turns).0 (course subscribed answer turns).1
        (start subscribed get now s turns)

  -- The importer, started over a state with its invariant, never panics where no tick that the
  -- repository answers with has a nil ticker, whatever the exchange answers and whatever fails on
  -- the way. With no subscription, or with a repository that does not answer, it stops with that
  -- error and sends nothing out. Else it runs until the first turn at which the context has ended,
  -- stops with the context's error there and else never; each turn before sends out nothing, or one
  -- sound tick, first to the notifier and then to the repository; and the state keeps its
  -- invariant.
  pub start-Ran :
      (subscribed : Bool) (get_history_since : Time → Result (List (StoredTick F))) (now : Time)
      (s : State F) (turns : List (Turn F))
      → IsState s
      → ((history : List (StoredTick F))
          → get_history_since (back now (25 * minute)) ≡ ok history
          → All HasTickers history)
      → let c = course subscribed (get_history_since (back now (25 * minute))) turns in
        Ran c.0 c.1 (start subscribed get_history_since now s turns)
  unfolding start start_tickers_import init_history
  start-Ran false get now s turns i there = record {
    state = s;
    effects = [];
    result = refl;
    valid = i;
    rounds = no_turns;
  }
  start-Ran true get now s turns i there = elim (Result-cases (get (back now (25 * minute)))) [
    | inl (history, e) ↦
        let r = restore_ticks-Restored s history i (there history e) in
        let r' = import_loop-Ran r.state turns r.valid in
        subst (Runs s get now turns true) (sym e) (record {
          state = r'.state;
          effects = r'.effects;
          result = cc (e, r.result, r'.result);
          valid = r'.valid;
          rounds = r'.rounds;
        })
    | inr (problem, e) ↦
        subst (Runs s get now turns true) (sym e)
          (record { state = s; effects = []; result = cc e; valid = i; rounds = no_turns })
  ]
