-- ===== src/Notifier/Delivery/Sequence.antt =====
-- internal/notifier/notifier.go: in which order the events of a notification reach the clients.
use exchange_data_importer.Prelude.{
  ◌≡◌, sym, ap, ◌∙◌, Option, some, List, [], ◌∷◌, ◌++◌, map, append-nil, append_assoc,
}
use exchange_data_importer.Errors.{Error}
use exchange_data_importer.Notifier.{
  market_data_topic, alert_topic, tick_info_topic, Handler, Handlers, handlers_of, send_events,
  run_handlers, notify_topic, notify,
}

module _ {C S D E : Type 0} (events : S → D → List E) (fails : C → E → Option Error) where
  -- Strategies without a state, and clients that record what they are sent, whether or not they then
  -- report an error.
  abbrev pub format_pure : List (C × E) → S → D → List (C × E) × List E
  format_pure log s d = (log, events s d)

  abbrev pub send_logged : List (C × E) → C → E → List (C × E) × Option Error
  send_logged log c e = (log ++ (c, e) ∷ [], fails c e)

  -- What the handlers of a list are to send, in order.
  abbrev pub deliveries : List (Handler C S) → D → List (C × E)
  deliveries [] d = []
  deliveries (h ∷ rest) d = map (λ e. (h.client, e)) (events h.strategy d) ++ deliveries rest d

  send_events_lem :
      (log : List (C × E)) (c : C) (es : List E)
      → send_events format_pure send_logged log c es ≡ log ++ map (λ e. (c, e)) es
  unfolding send_events
  send_events_lem log c [] = sym (append-nil log)
  send_events_lem log c (e ∷ es) =
      send_events_lem (log ++ (c, e) ∷ []) c es
      ∙ append_assoc log ((c, e) ∷ []) (map (λ k. (c, k)) es)

  run_handlers_lem :
      (log : List (C × E)) (hs : List (Handler C S)) (d : D)
      → run_handlers format_pure send_logged log hs d ≡ log ++ deliveries hs d
  unfolding run_handlers
  run_handlers_lem log [] d = sym (append-nil log)
  run_handlers_lem log (h ∷ rest) d =
      let now = map (λ e. (h.client, e)) (events h.strategy d) in
      ap (λ l. run_handlers format_pure send_logged l rest d)
        (send_events_lem log h.client (events h.strategy d))
      ∙ run_handlers_lem (log ++ now) rest d
      ∙ append_assoc log now (deliveries rest d)

  -- With such strategies and clients, a notification sends the events of the market data handlers,
  -- then those of the tick information handlers, then the alerts: within a topic in the order of
  -- subscription, and each event to its handler's client, even behind one that fails.
  pub notify_order :
      (log : List (C × E)) (hs : Handlers C S) (d : D)
      → notify format_pure send_logged log hs (some d)
        ≡ ((log ++ deliveries (handlers_of hs market_data_topic) d)
            ++ deliveries (handlers_of hs tick_info_topic) d)
          ++ deliveries (handlers_of hs alert_topic) d
  unfolding notify notify_topic
  notify_order log hs d = rw (run_handlers_lem log (handlers_of hs market_data_topic) d) (
      rw
        (run_handlers_lem (log ++ deliveries (handlers_of hs market_data_topic) d)
          (handlers_of hs tick_info_topic) d)
        (run_handlers_lem _ (handlers_of hs alert_topic) d))
