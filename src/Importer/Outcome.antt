-- ===== src/Importer/Outcome.antt =====
-- What a round of the import does to the outside.
use exchange_data_importer.Prelude.{
  ◌≡◌, refl, sym, ◌∙◌, subst, ◌≢◌, ◌↔◌, inl, inr, Option, none, some, List, [], ◌∷◌, arith,
  Option-cases, length, get_elem?,
}
use exchange_data_importer.Prelude.Partial.{bind_some}
use exchange_data_importer.Float.{Float}
use exchange_data_importer.Time.{Time, zero_time, sub_time, milliseconds}
use exchange_data_importer.Errors.{Error, wrapped, ok, err, Result-cases}
use exchange_data_importer.Exchanges.{ExchangeTicker}
use exchange_data_importer.Domain.Ticker.{Tick, validate_tick}
use exchange_data_importer.Importer.Tick.{
  State, World, Effect, notified, sent_to_repository, deliver, new_tick, build_tick, import_fetched,
  import_tick,
}

report_of :
    {A B C : Type 0} {x y : A × B × C}
    → ◌≡◌ {A = Option (A × B × C)} (some x) (some y)
    → ◌≡◌ {A = B × C} (x.1, x.2) (y.1, y.2)
report_of h = cc

module _ {F : Type 0} ⦃f : Float F⦄ where
  validate_tick_sound :
      (t : Tick F) → validate_tick t ≡ none → (t.start_at ≢ zero_time) × (t.fetched_at ≢ zero_time)
  unfolding validate_tick
  validate_tick_sound t h = ground arith

  -- The effects of a round: none, or one notification and then one store of the same sound tick.
  pub data IsDelivery (created_at : Time) (stored problem : Option Error)
      : List (Effect F) → Type 0 where
    nothing : problem ≢ none → IsDelivery created_at stored problem []
    both :
        (t : Tick F)
        → t.start_at ≢ zero_time
        → t.fetched_at ≢ zero_time
        → t.created_at ≡ created_at
        → (problem ≡ none) ↔ (stored ≡ none)
        → IsDelivery created_at stored problem (notified t ∷ sent_to_repository t ∷ [])

  deliver-IsDelivery :
      (created_at : Time) (t : Tick F) (stored : Option Error)
      → t.created_at ≡ created_at
      → IsDelivery created_at stored (deliver t stored).0 (deliver t stored).1
  unfolding deliver
  deliver-IsDelivery c t stored h = elim (Option-cases (validate_tick t)) [
    | inr (bad, e) ↦ rw (e, deliver) (nothing (λ k. cc))
    | inl e ↦ let (s, x) = validate_tick_sound t e in go stored e s x
  ]
    where
      go :
          (stored : Option Error)
          → validate_tick t ≡ none
          → t.start_at ≢ zero_time
          → t.fetched_at ≢ zero_time
          → IsDelivery c stored (deliver t stored).0 (deliver t stored).1
      go none e s x = rw (e, deliver) (both t s x h (λ _. refl, λ _. refl))
      go (some bad) e s x = rw (e, deliver) (both t s x h (λ k. cc, λ k. cc))

  import_fetched-IsDelivery :
      (s : State F) (w : World F) (l : List (ExchangeTicker F))
      → (s' : State F) (problem : Option Error) (effects : List (Effect F))
      → import_fetched s w l ≡ some (s', problem, effects)
      → IsDelivery w.created_at w.stored problem effects
  unfolding import_fetched
  import_fetched-IsDelivery s w l s' problem effects h =
      let (s1, e1, h1) =
        bind_some (build_tick s (new_tick w.start_at w.fetched_at) (w.liquidations w.start_at) l) _
          h in
      let (t, e2, h2) = bind_some (get_elem? s1.ticks (length s.ticks)) _ h1 in
      let d =
        deliver-IsDelivery w.created_at
          (record t {
            created_at = w.created_at;
            handling_duration = milliseconds (sub_time w.handled_at w.fetched_at);
          })
          w.stored refl in
      subst (λ o. IsDelivery w.created_at w.stored o.0 o.1) (report_of h2) d

  pub import_tick_ok :
      (s : State F) (w : World F) (l : List (ExchangeTicker F))
      → w.fetched ≡ ok l
      → import_tick s w ≡ import_fetched s w l
  unfolding import_tick import_fetched
  import_tick_ok s w l e = rw (e, import_tick)

  pub import_tick_err :
      (s : State F) (w : World F) (bad : Error)
      → w.fetched ≡ err bad
      → import_tick s w ≡ some (s, some (wrapped "fetchTickers failed: %w" bad), [])
  unfolding import_tick
  import_tick_err s w bad e = rw (e, import_tick)

  -- Every round of the import that returns does one of two things: it sends nothing out and returns
  -- an error; or it publishes one tick, whose start and fetch times are set and whose creation time
  -- is the clock's, and then hands the same tick to the repository, and returns an error exactly if
  -- the repository does.
  pub import_tick-IsDelivery :
      (s s' : State F) (w : World F) (problem : Option Error) (effects : List (Effect F))
      → import_tick s w ≡ some (s', problem, effects)
      → IsDelivery w.created_at w.stored problem effects
  import_tick-IsDelivery s s' w problem effects h = elim (Result-cases w.fetched) [
    | inl (l, e) ↦
        import_fetched-IsDelivery s w l s' problem effects (sym (import_tick_ok s w l e) ∙ h)
    | inr (bad, e) ↦
        subst (λ o. IsDelivery w.created_at w.stored o.0 o.1)
          (report_of (sym (import_tick_err s w bad e) ∙ h)) (nothing (λ k. cc))
  ]
