-- ===== src/Importer/Liquidations.antt =====
-- internal/importer/importer.go: the import of liquidations. The logger is left out.
use exchange_data_importer.Prelude.{ℕ, ◌+◌, Option, none, some, List, [], ◌∷◌}
use exchange_data_importer.Prelude.Int.{pos}
use exchange_data_importer.Time.{Time, zero_time}
use exchange_data_importer.Float.{Float}
use exchange_data_importer.Errors.{Error}
use exchange_data_importer.Exchanges.{ExchangeLiquidation}
use exchange_data_importer.Domain.Liquidation.{Liquidation, validate}
use exchange_data_importer.Repository.Memory.{create}

-- What the loop of `startLiquidationsImport` receives: a liquidation, with the clock's time at its
-- conversion, or an error of the stream; and what a receive from a channel gives once it is closed and
-- drained: a zero liquidation, or a nil error.
pub data StreamEvent (F : Type 0) : Type 0 where
  received : ExchangeLiquidation F → Time → StreamEvent F
  failed : Error → StreamEvent F
  out_closed : Time → StreamEvent F
  errs_closed : StreamEvent F

-- The repository, over a state `R` of its own, and the counter of stream errors in the telemetry.
pub record Import (R : Type 0) : Type 0 where
  pub repository : R
  pub stream_errors : ℕ

module _ {F : Type 0} ⦃f : Float F⦄ where
  -- `convertLiquidationToDomain` at the time `now`.
  unfoldable pub convert_liquidation : ExchangeLiquidation F → Time → Liquidation F
  convert_liquidation l now = record {
    order = record {
      symbol = l.symbol;
      event_at = l.event_at;
      side = l.side;
      price = l.price;
      quantity = l.quantity;
      total_price = l.total_price;
    };
    event_at = l.event_at;
    stored_at = now;
  }

  -- The zero value of a liquidation.
  abbrev pub zero_liquidation : ExchangeLiquidation F
  zero_liquidation = record {
    symbol = "";
    side = "";
    price = f.lit (pos 0);
    quantity = f.lit (pos 0);
    total_price = f.lit (pos 0);
    event_at = zero_time;
  }

  module _ {R : Type 0} (store : R → Liquidation F → R × Option Error) where
    -- A liquidation that is not valid is dropped, and a failure of the repository only logged.
    unfoldable pub handle_liquidation : Import R → ExchangeLiquidation F → Time → Import R
    unfolding convert_liquidation
    handle_liquidation s l now = elim (validate (convert_liquidation l now)) [
      | some bad ↦ s
      | none ↦ record s { repository = (store s.repository (convert_liquidation l now)).0 }
    ]

    -- One turn of the loop. It counts what comes from the error channel, nil or not.
    unfoldable pub handle_event : Import R → StreamEvent F → Import R
    unfolding handle_liquidation
    handle_event s (received l now) = handle_liquidation s l now
    handle_event s (failed e) = record s { stream_errors = s.stream_errors + 1 }
    handle_event s (out_closed now) = handle_liquidation s zero_liquidation now
    handle_event s errs_closed = record s { stream_errors = s.stream_errors + 1 }

    unfoldable pub handle_events : Import R → List (StreamEvent F) → Import R
    handle_events s [] = s
    handle_events s (e ∷ rest) = handle_events (handle_event s e) rest

  -- The in-memory repository, whose `Create` never fails.
  abbrev pub store_in_memory :
      List (Liquidation F) → Liquidation F → List (Liquidation F) × Option Error
  store_in_memory ls l = (create ls l, none)
