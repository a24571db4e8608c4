-- ===== src/Exchanges/Session.antt =====
-- internal/infrastructure/exchanges/{bybit,okx,binance}/client.go: readMessages and
-- handleLiquidationSubscription, which the three clients write alike. The connection and the context
-- are parameters: what each read of the connection and each look at the context gave.
pub mod Delivered
pub mod Loop
pub mod Link
pub mod Total
use exchange_data_importer.Prelude.{String, Bool, true, false, Option, none, some, List, [], ◌∷◌}
use exchange_data_importer.Prelude.Partial.{◌>>=◌}
use exchange_data_importer.Errors.{Error, wrapped}
use exchange_data_importer.Exchanges.Channels.{Channels, send_error}

-- One turn of the loop of `readMessages`: the context has ended, or the deadline could not be set, or
-- the read failed, or it gave a message.
pub data Read (M : Type 0) : Type 0 where
  context_done : Read M
  no_deadline : Error → Read M
  no_message : Error → Read M
  message : M → Read M

-- What `readMessages` or `connectAndHandle` came to: it still waits for a message, or it returned.
pub data Status : Type 0 where
  reading : Status
  returned : Option Error → Status

-- One turn of `handleLiquidationSubscription`: the error of the dial, the names that
-- `getAvailableTickers` gave, the error of writing the arguments of a subscription, the reads, and
-- whether the context had ended after them.
pub record Attempt (M : Type 0) : Type 0 where
  pub dial : Option Error
  pub available_tickers : List String
  pub write_json : List String → Option Error
  pub reads : List (Read M)
  pub ended : Bool

-- Whether the two channels are still open.
pub data Stage : Type 0 where
  running : Stage
  closed : Stage

module _ {F : Type 0} where
  -- The errors of `connectAndHandle` go to the error channel.
  unfoldable pub report : Channels F → Option Error → Channels F
  unfolding send_error
  report c none = c
  report c (some e) = send_error c (wrapped "websocket error: %w" e)

module _ {F M : Type 0} where
  -- `readMessages`: the error of a message is only logged, and `none` is its panic.
  unfoldable pub read_messages :
      (M → Channels F → Option (Channels F × Option Error))
      → List (Read M)
      → Channels F
      → Option (Channels F × Status)
  read_messages process [] c = some (c, reading)
  read_messages process (context_done ∷ rest) c = some (c, returned none)
  read_messages process (no_deadline e ∷ rest) c =
      some (c, returned (some (wrapped "setting read deadline: %w" e)))
  read_messages process (no_message e ∷ rest) c =
      some (c, returned (some (wrapped "reading message: %w" e)))
  read_messages process (message m ∷ rest) c = do
    (c', problem) ← process m c
    read_messages process rest c'

  -- `handleLiquidationSubscription` over the attempts: the channels are closed once the context has
  -- ended, and else the client connects again.
  unfoldable pub handle_subscription :
      (Attempt M → Channels F → Option (Channels F × Status))
      → List (Attempt M)
      → Channels F
      → Option (Channels F × Stage)
  unfolding report
  handle_subscription connect [] c = some (c, running)
  handle_subscription connect (a ∷ rest) c = do
    (c', status) ← connect a c
    elim status [
      | reading ↦ some (c', running)
      | returned problem ↦ elim a.ended [
        | true ↦ some (report c' problem, closed)
        | false ↦ handle_subscription connect rest (report c' problem)
      ]
    ]
