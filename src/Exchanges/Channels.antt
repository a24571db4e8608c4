-- ===== src/Exchanges/Channels.antt =====
-- The two channels of `SubscribeLiquidations`, as the lists of what was sent on them.
-- A send of a liquidation waits for room or for the end of the context. So `room` counts the sends
-- that go through before the context ends, and the next one returns "context canceled". An error is
-- sent only if the channel's buffer takes it at once; the importer takes errors out of it meanwhile.
use exchange_data_importer.Prelude.{
  ℕ, suc, Bool, ◌-◌, Option, none, some, List, [], ◌∷◌, ◌++◌, ltb, ◌==◌, if◌then◌else◌,
}
use exchange_data_importer.Errors.{Error, errorf, Result, ok, err}
use exchange_data_importer.Exchanges.{ExchangeLiquidation}

-- `DefaultChannelBuffer`.
abbrev pub channel_buffer : ℕ
channel_buffer = 100

-- The buffer of the error channel: how many errors wait in it, and how many of them the importer takes
-- out before each of the next sends; none before those behind the list.
pub record Backlog : Type 0 where
  pub held : ℕ
  pub drained : List ℕ

abbrev pub empty_backlog : List ℕ → Backlog
empty_backlog drained = record { held = 0; drained = drained }

-- The buffer at the next send.
abbrev pub settle : Backlog → Backlog
settle b = elim b.drained [ [] ↦ b | n ∷ rest ↦ record { held = b.held - n; drained = rest } ]

-- Whether the buffer takes an error at once.
unfoldable pub has_room : Backlog → Bool
has_room b = ltb (settle b).held channel_buffer

pub record Channels (F : Type 0) : Type 0 where
  pub out : List (ExchangeLiquidation F)
  pub errs : List Error
  pub room : ℕ
  pub backlog : Backlog

abbrev pub canceled : Error
canceled = errorf "context canceled"

module _ {F : Type 0} where
  -- `select { case errCh <- err: default: log.Printf(…) }`.
  unfoldable pub send_error : Channels F → Error → Channels F
  send_error c e =
      let b = settle c.backlog in
      if has_room c.backlog
      then record c { errs = c.errs ++ e ∷ []; backlog = record b { held = suc b.held } }
      else record c { backlog = b }

  -- `select { case out <- liquidation: case <-ctx.Done(): return … }`.
  unfoldable pub send_liquidation : Channels F → ExchangeLiquidation F → Channels F × Option Error
  send_liquidation c l =
      if c.room == 0
      then (c, some canceled)
      else (record c { out = c.out ++ l ∷ []; room = c.room - 1 }, none)

  -- The end of `processMessage` for one liquidation, converted or not.
  unfoldable pub send_result :
      Channels F → Result (ExchangeLiquidation F) → Channels F × Option Error
  unfolding send_error send_liquidation
  send_result c (ok l) = send_liquidation c l
  send_result c (err e) = (send_error c e, some e)
