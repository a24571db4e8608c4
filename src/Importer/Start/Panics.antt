-- ===== src/Importer/Start/Panics.antt =====
-- internal/importer/history_manager.go: the only panic of the import's start.
use exchange_data_importer.Prelude.{
  ◌*◌, String, ◌≡◌, ◌≢◌, ◌↔◌, subst, inl, inr, true, Option, none, some, List, [], ◌∷◌, All,
  Option-cases,
}
use exchange_data_importer.Float.{Float}
use exchange_data_importer.Time.{Time, back, minute}
use exchange_data_importer.Errors.{Result, ok, Result-cases}
use exchange_data_importer.Domain.Ticker.{Ticker, Heap}
use exchange_data_importer.Importer.Tick.{State}
use exchange_data_importer.Importer.Tick.Round.{IsState}
use exchange_data_importer.Importer.Start.{
  StoredTick, Turn, present, restore_tick, restore_ticks, init_history, start_tickers_import, start,
}
use exchange_data_importer.Importer.Start.Restored.{HasTickers}
use exchange_data_importer.Importer.Start.Runs.{start-Ran}

module _ {F : Type 0} where
  present-there :
      (entries : List (String × Option (Ticker F))) (loaded : Heap F)
      → present entries ≡ some loaded
      → All (λ e. e.1 ≢ none) entries
  unfolding present
  present-there [] loaded h = tt
  present-there ((name, none) ∷ rest) loaded h = absurd (cc h)
  present-there ((name, some t) ∷ rest) loaded h = elim (Option-cases (present rest)) [
    | inl e ↦ absurd (cc (h, e))
    | inr (more, e) ↦ ((λ n. cc n), present-there rest more e)
  ]

module _ {F : Type 0} ⦃f : Float F⦄ where
  restore_tick-there :
      (s s' : State F) (stored : StoredTick F) → restore_tick s stored ≡ some s' → HasTickers stored
  unfolding restore_tick
  restore_tick-there s s' stored h = elim (Option-cases (present stored.entries)) [
    | inl e ↦ absurd (cc (h, e))
    | inr (loaded, e) ↦ present-there stored.entries loaded e
  ]

  restore_ticks-there :
      (s s' : State F) (history : List (StoredTick F))
      → restore_ticks s history ≡ some s'
      → All HasTickers history
  unfolding restore_ticks
  restore_ticks-there s s' [] h = tt
  restore_ticks-there s s' (stored ∷ rest) h = elim (Option-cases (restore_tick s stored)) [
    | inl e ↦ absurd (cc (h, e))
    | inr (s1, e) ↦ (restore_tick-there s s1 stored e, restore_ticks-there s1 s' rest (cc (h, e)))
  ]

  start-stops :
      (get_history_since : Time → Result (List (StoredTick F))) (now : Time) (s : State F)
      (turns : List (Turn F)) (history : List (StoredTick F))
      → get_history_since (back now (25 * minute)) ≡ ok history
      → restore_ticks s history ≡ none
      → start true get_history_since now s turns ≡ none
  unfolding start start_tickers_import init_history
  start-stops get now s turns history e h = cc (e, h)

  start-answers :
      (get_history_since : Time → Result (List (StoredTick F))) (now : Time) (s : State F)
      (turns : List (Turn F))
      → IsState s
      → ((history : List (StoredTick F))
          → get_history_since (back now (25 * minute)) ≡ ok history
          → All HasTickers history)
      → start true get_history_since now s turns ≢ none
  start-answers get now s turns i there h =
      let r = start-Ran true get now s turns i there in cc (h, r.result)

  -- Over a state with its invariant, the importer that has subscribed panics in exactly one case:
  -- the repository answers with a tick that has a nil ticker. No exchange, repository or clock
  -- makes it panic otherwise, over any turns.
  pub start-none_iff :
      (get_history_since : Time → Result (List (StoredTick F))) (now : Time) (s : State F)
      (turns : List (Turn F))
      → IsState s
      → (start true get_history_since now s turns ≡ none) ↔ (
          (history : List (StoredTick F)) × (get_history_since (back now (25 * minute))
            ≡ ok history)
          × ¬ All HasTickers history)
  start-none_iff get now s turns i = (
    (λ panics. elim (Result-cases (get (back now (25 * minute)))) [
      | inl (history, e) ↦ (
        history,
        e,
        λ all.
            start-answers get now s turns i
              (λ history' e'.
                let same : history ≡ history' = cc (e, e') in subst (All HasTickers) same all)
              panics,
      )
      | inr (problem, e) ↦
          absurd (start-answers get now s turns i (λ history' e'. absurd (cc (e, e'))) panics)
    ]),
    (λ (history, e, bad). elim (Option-cases (restore_ticks s history)) [
      | inl h ↦ start-stops get now s turns history e h
      | inr (s', h) ↦ absurd (bad (restore_ticks-there s s' history h))
    ]),
  )
