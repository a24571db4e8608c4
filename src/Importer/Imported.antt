-- ===== src/Importer/Imported.antt =====
-- What the import of liquidations leaves in the repository.
use exchange_data_importer.Prelude.{
  ℕ, ◌+◌, ◌≡◌, refl, sym, ap, ◌∙◌, inl, inr, none, some, List, [], ◌∷◌, ◌++◌, append-nil,
  append_assoc, arith, Option-cases,
}
use exchange_data_importer.Time.{Time}
use exchange_data_importer.Float.{Float}
use exchange_data_importer.Errors.{Error}
use exchange_data_importer.Exchanges.{ExchangeLiquidation}
use exchange_data_importer.Domain.Liquidation.{Liquidation, validate}
use exchange_data_importer.Repository.Memory.{create}
use exchange_data_importer.Importer.Liquidations.{
  StreamEvent, received, failed, out_closed, errs_closed, Import, convert_liquidation,
  handle_liquidation, handle_event, handle_events, store_in_memory,
}

module _ {F : Type 0} ⦃f : Float F⦄ where
  -- The liquidations of a stream that are to be stored, in order.
  abbrev pub valid_ones : List (StreamEvent F) → List (Liquidation F)
  valid_ones [] = []
  valid_ones (failed e ∷ rest) = valid_ones rest
  valid_ones (out_closed now ∷ rest) = valid_ones rest
  valid_ones (errs_closed ∷ rest) = valid_ones rest
  valid_ones (received l now ∷ rest) =
      let others = valid_ones rest in
      elim (validate (convert_liquidation l now)) [
        | none ↦ convert_liquidation l now ∷ others
        | some bad ↦ others
      ]

  abbrev pub failures : List (StreamEvent F) → ℕ
  failures [] = 0
  failures (failed e ∷ rest) = 1 + failures rest
  failures (errs_closed ∷ rest) = 1 + failures rest
  failures (received l now ∷ rest) = failures rest
  failures (out_closed now ∷ rest) = failures rest

  handle_event_valid :
      (s : Import (List (Liquidation F))) (l : ExchangeLiquidation F) (now : Time)
      → validate (convert_liquidation l now) ≡ none
      → handle_event store_in_memory s (received l now)
        ≡ record s { repository = s.repository ++ convert_liquidation l now ∷ [] }
  unfolding handle_event handle_liquidation create
  handle_event_valid s l now e =
      ap
        (λ v. elim v [
          | some bad ↦ s
          | none ↦ record s { repository = s.repository ++ convert_liquidation l now ∷ [] }
        ])
        e

  handle_event_bad :
      (s : Import (List (Liquidation F))) (l : ExchangeLiquidation F) (now : Time) (bad : Error)
      → validate (convert_liquidation l now) ≡ some bad
      → handle_event store_in_memory s (received l now) ≡ s
  unfolding handle_event handle_liquidation create
  handle_event_bad s l now bad e =
      ap
        (λ v. elim v [
          | some bad ↦ s
          | none ↦ record s { repository = s.repository ++ convert_liquidation l now ∷ [] }
        ])
        e

  -- What a closed channel of liquidations gives is never stored.
  handle_event_closed :
      (s : Import (List (Liquidation F))) (now : Time)
      → handle_event store_in_memory s (out_closed now) ≡ s
  unfolding handle_event convert_liquidation validate
  handle_event_closed s now = refl

  handle_event_failed :
      (s : Import (List (Liquidation F))) (e : Error)
      → handle_event store_in_memory s (failed e) ≡ record s { stream_errors = s.stream_errors + 1 }
  unfolding handle_event
  handle_event_failed s e = refl

  handle_event_nil :
      (s : Import (List (Liquidation F)))
      → handle_event store_in_memory s errs_closed
        ≡ record s { stream_errors = s.stream_errors + 1 }
  unfolding handle_event
  handle_event_nil s = refl

  -- Over the in-memory repository, a run of the import stores the valid liquidations of the stream,
  -- each once and in their order, behind what was stored before, and counts the stream's errors.
  -- What a closed channel of liquidations gives is not stored, and what a closed channel of errors
  -- gives is counted as an error.
  pub handle_events_lem :
      (s : Import (List (Liquidation F))) (events : List (StreamEvent F))
      → ((handle_events store_in_memory s events).repository ≡ s.repository ++ valid_ones events)
        × ((handle_events store_in_memory s events).stream_errors
            ≡ s.stream_errors + failures events)
  unfolding handle_events
  handle_events_lem s [] = (sym (append-nil _), omega arith)
  handle_events_lem s (failed e ∷ rest) =
      let s' = record s { stream_errors = s.stream_errors + 1 } in
      let (a, b) = handle_events_lem s' rest in
      rw (handle_event_failed s e, handle_events, valid_ones, failures) (a, b ∙ omega arith)
  handle_events_lem s (errs_closed ∷ rest) =
      let s' = record s { stream_errors = s.stream_errors + 1 } in
      let (a, b) = handle_events_lem s' rest in
      rw (handle_event_nil s, handle_events, valid_ones, failures) (a, b ∙ omega arith)
  handle_events_lem s (out_closed now ∷ rest) =
      rw (handle_event_closed s now, handle_events, valid_ones, failures) (handle_events_lem s rest)
  handle_events_lem s (received l now ∷ rest) =
      elim (Option-cases (validate (convert_liquidation l now))) [
        | inl e ↦
            let s' = record s { repository = s.repository ++ convert_liquidation l now ∷ [] } in
            let (a, b) = handle_events_lem s' rest in
            rw (handle_event_valid s l now e, handle_events, e, valid_ones)
              (a ∙ append_assoc s.repository (convert_liquidation l now ∷ []) (valid_ones rest), b)
        | inr (bad, e) ↦
            rw (handle_event_bad s l now bad e, handle_events, e, valid_ones)
              (handle_events_lem s rest)
      ]
