-- ===== src/Repository/Memory.antt =====
-- internal/infrastructure/repository/memory/liquidation.go. Each method holds the lock throughout.
pub mod Windows
use exchange_data_importer.Prelude.{ℕ, suc, ◌*◌, Bool, List, [], ◌∷◌, ◌++◌, str_eq, if◌then◌else◌}
use exchange_data_importer.Time.{Time, after, before, back, second}
use exchange_data_importer.Domain.Order.{order_side_sell}
use exchange_data_importer.Domain.Liquidation.{Liquidation, LiquidationsHistory, no_liquidations}

-- `if test { n++ }`.
abbrev pub bump : Bool → ℕ → ℕ
bump test n = if test then suc n else n

unfoldable pub count_long : Time → Time → LiquidationsHistory → LiquidationsHistory
count_long time_at at_ h = record h {
  long_1s = bump (after at_ (back time_at (1 * second))) h.long_1s;
  long_2s = bump (after at_ (back time_at (2 * second))) h.long_2s;
  long_5s = bump (after at_ (back time_at (5 * second))) h.long_5s;
  long_60s = bump (after at_ (back time_at (60 * second))) h.long_60s;
}

unfoldable pub count_short : Time → Time → LiquidationsHistory → LiquidationsHistory
count_short time_at at_ h = record h {
  short_1s = bump (after at_ (back time_at (1 * second))) h.short_1s;
  short_2s = bump (after at_ (back time_at (2 * second))) h.short_2s;
  short_10s = bump (after at_ (back time_at (10 * second))) h.short_10s;
}

module _ {F : Type 0} where
  -- `Create`.
  unfoldable pub create : List (Liquidation F) → Liquidation F → List (Liquidation F)
  create liquidations l = liquidations ++ l ∷ []

  -- The body of the loop of `GetLiquidationsHistory`.
  unfoldable pub count_one : Time → Liquidation F → LiquidationsHistory → LiquidationsHistory
  unfolding count_long count_short
  count_one time_at l h =
      if before l.event_at (back time_at (60 * second))
      then h
      else if str_eq l.order.side order_side_sell
      then count_long time_at l.event_at h
      else count_short time_at l.event_at h

  unfoldable pub count_all : Time → List (Liquidation F) → LiquidationsHistory → LiquidationsHistory
  unfolding count_one
  count_all time_at [] h = h
  count_all time_at (l ∷ rest) h = count_all time_at rest (count_one time_at l h)

  -- `cleanup`.
  unfoldable pub cleanup : Time → List (Liquidation F) → List (Liquidation F)
  cleanup limit [] = []
  cleanup limit (l ∷ rest) =
      let kept = cleanup limit rest in if after l.event_at limit then l ∷ kept else kept

  -- `GetLiquidationsHistory`: the answer, and the liquidations that stay stored.
  unfoldable pub get_liquidations_history :
      List (Liquidation F) → Time → LiquidationsHistory × List (Liquidation F)
  unfolding count_all cleanup
  get_liquidations_history liquidations time_at = (
    count_all time_at liquidations no_liquidations,
    cleanup (back time_at (60 * second)) liquidations,
  )
