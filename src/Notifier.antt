-- ===== src/Notifier.antt =====
-- internal/notifier/notifier.go. The clients and strategies are interfaces: `format` and `send` are
-- what they do, over a state of the outside that they may change.
pub mod Delivery
pub mod Alert
pub mod TickInfo
pub mod MarketData
pub mod Clients
use exchange_data_importer.Prelude.{
  String, ◌||◌, Option, none, some, List, [], ◌∷◌, ◌++◌, str_eq, if◌then◌else◌, lookup, insert,
}
use exchange_data_importer.Errors.{Error, errorf}

abbrev pub market_data_topic : String
market_data_topic = "MARKET_DATA"

abbrev pub alert_topic : String
alert_topic = "ALERT_MARKET_STATE"

abbrev pub tick_info_topic : String
tick_info_topic = "TICK_INFO"

-- `(t Topic) Validate`.
unfoldable pub validate_topic : String → Option Error
validate_topic t =
    if str_eq t market_data_topic || str_eq t alert_topic || str_eq t tick_info_topic
    then none
    else some (errorf "invalid topic: '%s'")

-- `handler` and the map `handlers`.
pub record Handler (C S : Type 0) : Type 0 where
  pub client : C
  pub strategy : S

abbrev pub Handlers : Type 0 → Type 0 → Type 0
Handlers C S = List (String × List (Handler C S))

module _ {C S : Type 0} where
  -- The handlers of a topic; a missing key reads as no handlers.
  unfoldable pub handlers_of : Handlers C S → String → List (Handler C S)
  handlers_of hs topic = elim (lookup topic hs) [ none ↦ [] | some l ↦ l ]

  -- `Subscribe`; a nil client or strategy is `none`.
  unfoldable pub subscribe : Handlers C S → String → Option C → Option S → Handlers C S
  subscribe hs topic none strategy = hs
  subscribe hs topic (some client) none = hs
  subscribe hs topic (some client) (some strategy) = elim (validate_topic topic) [
    | some e ↦ hs
    | none ↦
        insert topic (handlers_of hs topic ++ record { client = client; strategy = strategy } ∷ [])
          hs
  ]

module _ {C S D E W : Type 0} (format : W → S → D → W × List E)
    (send : W → C → E → W × Option Error) where
  -- The loop over the events of one handler: an error is logged, and the loop goes on.
  unfoldable pub send_events : W → C → List E → W
  send_events w client [] = w
  send_events w client (event ∷ rest) = send_events (send w client event).0 client rest

  -- The loop of `notify` over the handlers of a topic.
  unfoldable pub run_handlers : W → List (Handler C S) → D → W
  unfolding send_events
  run_handlers w [] d = w
  run_handlers w (h ∷ rest) d =
      let (w', events) = format w h.strategy d in
      run_handlers (send_events w' h.client events) rest d

  -- `notify`.
  unfoldable pub notify_topic : W → Handlers C S → String → D → W
  unfolding run_handlers handlers_of
  notify_topic w hs topic d = run_handlers w (handlers_of hs topic) d

  -- `Notify`; nil data is `none`.
  unfoldable pub notify : W → Handlers C S → Option D → W
  unfolding notify_topic
  notify w hs none = w
  notify w hs (some d) =
      notify_topic (notify_topic (notify_topic w hs market_data_topic d) hs tick_info_topic d) hs
        alert_topic d
