-- ===== src/Repository/Sqlite.antt =====
-- internal/infrastructure/repository/sqlite/liquidation.go and tick.go: what the code does with the
-- rows of a query. The database and encoding/json are parameters: the outcome of the query, and of
-- reading each row.
use exchange_data_importer.Prelude.{
  ℕ, suc, ◌*◌, Bool, Option, none, some, List, [], ◌∷◌, ◌++◌, str_eq, if◌then◌else◌,
}
use exchange_data_importer.Prelude.Int.{ℤ, pos, leb_ℤ}
use exchange_data_importer.Time.{Time, sub_time, second, back}
use exchange_data_importer.Errors.{Error, wrapped, Result, ok, err}
use exchange_data_importer.Domain.Order.{order_side_sell, order_side_buy}
use exchange_data_importer.Domain.Liquidation.{Liquidation, LiquidationsHistory, no_liquidations}

-- A row: `rows.Scan` fails, or `json.Unmarshal` fails, or both give a value.
pub data Row (A : Type 0) : Type 0 where
  bad_scan : Error → Row A
  bad_json : Error → Row A
  row : A → Row A

abbrev pub bump : Bool → ℕ → ℕ
bump test n = if test then suc n else n

-- `delta <= n` for a delta in seconds, compared in nanoseconds.
abbrev pub at_most : ℤ → ℕ → Bool
at_most delta n = leb_ℤ delta (pos (n * second))

unfoldable pub count_long : ℤ → LiquidationsHistory → LiquidationsHistory
count_long delta h = record h {
  long_1s = bump (at_most delta 1) h.long_1s;
  long_2s = bump (at_most delta 2) h.long_2s;
  long_5s = bump (at_most delta 5) h.long_5s;
  long_60s = bump (at_most delta 60) h.long_60s;
}

unfoldable pub count_short : ℤ → LiquidationsHistory → LiquidationsHistory
count_short delta h = record h {
  short_1s = bump (at_most delta 1) h.short_1s;
  short_2s = bump (at_most delta 2) h.short_2s;
  short_10s = bump (at_most delta 10) h.short_10s;
}

module _ {F : Type 0} where
  -- The body of the loop for one liquidation.
  unfoldable pub count_one : Time → Liquidation F → LiquidationsHistory → LiquidationsHistory
  unfolding count_long count_short
  count_one time_at l h =
      let delta = sub_time time_at l.event_at in
      let h1 = if str_eq l.order.side order_side_sell then count_long delta h else h in
      if str_eq l.order.side order_side_buy then count_short delta h1 else h1

  unfoldable pub count_rows :
      Time → List (Row (Liquidation F)) → LiquidationsHistory → LiquidationsHistory × Option Error
  unfolding count_one
  count_rows time_at [] h = (h, none)
  count_rows time_at (bad_scan e ∷ rest) h =
      (no_liquidations, some (wrapped "failed to scan liquidation row: %w" e))
  count_rows time_at (bad_json e ∷ rest) h =
      (no_liquidations, some (wrapped "failed to unmarshal liquidation: %w" e))
  count_rows time_at (row l ∷ rest) h = count_rows time_at rest (count_one time_at l h)

  -- `GetLiquidationsHistory`; `query from to` is the query for the events between the two times.
  unfoldable pub get_liquidations_history :
      (Time → Time → Result (List (Row (Liquidation F))))
      → Time
      → LiquidationsHistory × Option Error
  unfolding count_rows
  get_liquidations_history query time_at = elim (query (back time_at (60 * second)) time_at) [
    | err e ↦ (no_liquidations, some (wrapped "failed to query liquidations: %w" e))
    | ok rows ↦ count_rows time_at rows no_liquidations
  ]

-- The loop of `GetHistorySince` of the tick repository.
unfoldable pub read_ticks : {A : Type 0} → List (Row A) → List A → Result (List A)
read_ticks [] ticks = ok ticks
read_ticks (bad_scan e ∷ rest) ticks = err (wrapped "failed to scan tick row: %w" e)
read_ticks (bad_json e ∷ rest) ticks = err (wrapped "failed to unmarshal tick: %w" e)
read_ticks (row t ∷ rest) ticks = read_ticks rest (ticks ++ t ∷ [])

-- `GetHistorySince`; `query since` is the query for the ticks created since, oldest first.
unfoldable pub get_history_since :
    {A : Type 0} → (Time → Result (List (Row A))) → Time → Result (List A)
unfolding read_ticks
get_history_since query since = elim (query since) [
  | err e ↦ err (wrapped "failed to query ticks: %w" e)
  | ok rows ↦ read_ticks rows []
]

-- `Create` of the liquidations and of the ticks, by the outcome of json.Marshal and of the insertion.
unfoldable pub create_liquidation : Option Error → Option Error → Option Error
create_liquidation (some e) insertion = some (wrapped "failed to marshal liquidation: %w" e)
create_liquidation none (some e) = some (wrapped "failed to insert liquidation: %w" e)
create_liquidation none none = none

unfoldable pub create_tick : Option Error → Option Error → Option Error
create_tick (some e) insertion = some (wrapped "failed to marshal tick: %w" e)
create_tick none (some e) = some (wrapped "failed to insert tick: %w" e)
create_tick none none = none

-- `init` of the two repositories, by the outcome of creating the table. Both name the ticks.
unfoldable pub create_table : Option Error → Option Error
create_table none = none
create_table (some e) = some (wrapped "failed to create ticks table: %w" e)
