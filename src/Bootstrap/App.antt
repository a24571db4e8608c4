-- ===== src/Bootstrap/App.antt =====
-- internal/bootstrap/app.go and internal/importer/notify.go: App.Start.
pub mod Subscribed
use exchange_data_importer.Prelude.{Bool, Option, some, List, [], ◌∷◌}
use exchange_data_importer.Prelude.Partial.{◌>>=◌}
use exchange_data_importer.Float.{Float}
use exchange_data_importer.Time.{Time}
use exchange_data_importer.Errors.{Result}
use exchange_data_importer.Notifier.{Handlers, subscribe}
use exchange_data_importer.Importer.Tick.{State, Effect}
use exchange_data_importer.Importer.Start.{StoredTick, Turn, Progress, wrap_progress, start}
use exchange_data_importer.Bootstrap.Builder.{Client, Strategy, NotifierConfig, Builder}

-- `WithNotifier`, which never returns an error.
unfoldable pub with_notifier : Handlers Client Strategy → NotifierConfig → Handlers Client Strategy
unfolding subscribe
with_notifier hs n = subscribe hs n.topic (some n.client) (some n.strategy)

-- The loop of `Start` over the notifiers of the builder.
unfoldable pub add_notifiers :
    Handlers Client Strategy → List NotifierConfig → Handlers Client Strategy
unfolding with_notifier
add_notifiers hs [] = hs
add_notifiers hs (n ∷ rest) = add_notifiers (with_notifier hs n) rest

module _ {F : Type 0} ⦃f : Float F⦄ where
  -- `(a *App) Start`: the handlers of the notifier, and the import.
  unfoldable pub start_app :
      Builder
      → Bool
      → (Time → Result (List (StoredTick F)))
      → Time
      → State F
      → List (Turn F)
      → Option (Handlers Client Strategy × State F × Progress × List (Effect F))
  unfolding add_notifiers start
  start_app b subscribed get_history_since now s turns = do
    let handlers = add_notifiers [] b.notifiers
    (s', progress, effects) ← start subscribed get_history_since now s turns
    some (handlers, s', wrap_progress "starting import loop: %w" progress, effects)
