-- ===== src/Bootstrap/Main/Ending.antt =====
-- cmd/importer/main.go: how a run of the program ends.
use exchange_data_importer.Prelude.{◌≡◌, ◌≢◌, ◌⊎◌, Option, some, List, []}
use exchange_data_importer.Float.{Float}
use exchange_data_importer.Time.{Time}
use exchange_data_importer.Errors.{Error, Result, ok, err}
use exchange_data_importer.Importer.Tick.{Effect}
use exchange_data_importer.Importer.Start.{Turn, Progress, wrap_progress}
use exchange_data_importer.Importer.Start.Runs.{AreRounds}
use exchange_data_importer.Bootstrap.Options.{Options}
use exchange_data_importer.Bootstrap.Builder.{App}
use exchange_data_importer.Bootstrap.Main.{Standing, exited, shutting_down, after_start}

module _ {F : Type 0} ⦃f : Float F⦄ where
  -- A run of the program: the builder's error and nothing sent out, or the course of the import.
  pub record Ended (built : Option (Result (App F))) (c : Progress × List (Turn F))
      (out : Option (Standing × List (Effect F))) : Type 0 where
    pub standing : Standing
    pub effects : List (Effect F)
    pub result : out ≡ some (standing, effects)
    pub way :
        ((e : Error) × (built ≡ some (err e)) × (standing ≡ exited 1 e) × (effects ≡ []))
        ⊎ ((app : App F) × (built ≡ some (ok app))
            × (standing ≡ after_start (wrap_progress "starting import loop: %w" c.0))
            × AreRounds c.1 effects)
    pub never_graceful : standing ≢ shutting_down
