-- ===== src/Bootstrap/Main.antt =====
-- cmd/importer/main.go: the whole program, with the goroutine of the subscription. The options, the
-- libraries, the repository, the exchange and the signals are parameters, as in the parts that it is made of.
pub mod Ending
use exchange_data_importer.Prelude.{ℕ, String, true, Option, none, some, List, []}
use exchange_data_importer.Prelude.Partial.{◌>>=◌}
use exchange_data_importer.Float.{Float}
use exchange_data_importer.Time.{Time}
use exchange_data_importer.Errors.{Error, Result, ok, err}
use exchange_data_importer.Importer.Tick.{Effect}
use exchange_data_importer.Importer.Start.{StoredTick, Turn, Progress, running, finished, stopped}
use exchange_data_importer.Bootstrap.Options.{Options}
use exchange_data_importer.Bootstrap.Builder.{Outside, build_app}
use exchange_data_importer.Bootstrap.Subscription.{Connections, subscribe_liquidations}
use exchange_data_importer.Bootstrap.App.{start_app}

-- How a run of `main` stands: `App.Start` has not returned; the process has exited with a code, after
-- it printed an error; or `main` has gone on to wait for the signal and to shut down gracefully.
pub data Standing : Type 0 where
  importing : Standing
  exited : ℕ → Error → Standing
  shutting_down : Standing

-- What `main` does with the outcome of `App.Start`.
unfoldable pub after_start : Progress → Standing
after_start running = importing
after_start (stopped e) = exited 1 e
after_start finished = shutting_down

module _ {F : Type 0} ⦃f : Float F⦄ where
  -- `main`; `none` is a panic, of its own goroutine or of the subscription's.
  unfoldable pub main :
      Outside
      → Options
      → Option Error
      → String
      → Connections F
      → (Time → Result (List (StoredTick F)))
      → Time
      → List (Turn F)
      → Option (Standing × List (Effect F))
  unfolding build_app subscribe_liquidations start_app after_start
  main w options parse_error revision connections get_history_since now turns =
      elim (build_app {F = F} w options parse_error revision) [
        | none ↦ none
        | some (err e) ↦ some (exited 1 e, [])
        | some (ok app) ↦ do
          x ← app.builder.exchange
          (channels, stage) ← subscribe_liquidations x connections
          (handlers, s, progress, effects) ←
              start_app app.builder true get_history_since now app.importer turns
          some (after_start progress, effects)
      ]
