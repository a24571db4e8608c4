-- ===== src/Repository/Mongo.antt =====
-- internal/infrastructure/repository/mongo/liquidation.go and tick.go. The database is a parameter: the
-- outcome of an insertion, the answer to a count with a filter, and the rows of a query.
use exchange_data_importer.Prelude.{ℕ, ◌*◌, String, Option, none, some, List, [], ◌∷◌, ◌++◌}
use exchange_data_importer.Time.{Time, second, back}
use exchange_data_importer.Errors.{Error, wrapped, Result, ok, err}
use exchange_data_importer.Domain.Liquidation.{
  LiquidationsHistory, no_liquidations, long_liquidation, short_liquidation,
}

-- The filter on the side, on the time of storage and on the time of the event.
pub record Filter : Type 0 where
  pub side : String
  pub stored_from : Time
  pub stored_to : Time
  pub event_from : Time
  pub event_to : Time

-- The field that a range of `timeRanges` sets.
pub data SetField : Type 0 where
  long_1s long_2s long_5s long_60s short_1s short_2s short_10s : SetField

unfoldable pub set_field : SetField → ℕ → LiquidationsHistory → LiquidationsHistory
set_field long_1s n h = record h { long_1s = n }
set_field long_2s n h = record h { long_2s = n }
set_field long_5s n h = record h { long_5s = n }
set_field long_60s n h = record h { long_60s = n }
set_field short_1s n h = record h { short_1s = n }
set_field short_2s n h = record h { short_2s = n }
set_field short_10s n h = record h { short_10s = n }

pub record LiquidationsParams : Type 0 where
  pub seconds : ℕ
  pub side : String
  pub field : SetField

abbrev pub time_ranges : List LiquidationsParams
time_ranges =
    record { seconds = 1; side = long_liquidation; field = long_1s }
    ∷ record { seconds = 2; side = long_liquidation; field = long_2s }
    ∷ record { seconds = 5; side = long_liquidation; field = long_5s }
    ∷ record { seconds = 60; side = long_liquidation; field = long_60s }
    ∷ record { seconds = 1; side = short_liquidation; field = short_1s }
    ∷ record { seconds = 2; side = short_liquidation; field = short_2s }
    ∷ record { seconds = 10; side = short_liquidation; field = short_10s }
    ∷ []

unfoldable pub filter_of : Time → ℕ → String → Filter
filter_of time_at seconds side = record {
  side = side;
  stored_from = back time_at (seconds * second);
  stored_to = time_at;
  event_from = back time_at (seconds * 5 * second);
  event_to = time_at;
}

module _ (count_documents : Filter → Result ℕ) where
  -- `getLiquidationsCount`.
  unfoldable pub get_liquidations_count : Time → ℕ → String → Result ℕ
  unfolding filter_of
  get_liquidations_count time_at seconds side =
      elim (count_documents (filter_of time_at seconds side)) [
        | ok n ↦ ok n
        | err e ↦ err (wrapped "error counting documents: %w" e)
      ]

  -- The loop over the ranges: it stops at the first error, and returns what is set by then.
  unfoldable pub count_ranges :
      Time → List LiquidationsParams → LiquidationsHistory → LiquidationsHistory × Option Error
  unfolding get_liquidations_count set_field
  count_ranges time_at [] h = (h, none)
  count_ranges time_at (tr ∷ rest) h = elim (get_liquidations_count time_at tr.seconds tr.side) [
    | err e ↦ (h, some (wrapped "error getting long liquidations for %d seconds: %w" e))
    | ok n ↦ count_ranges time_at rest (set_field tr.field n h)
  ]

  -- `GetLiquidationsHistory`.
  unfoldable pub get_liquidations_history : Time → LiquidationsHistory × Option Error
  unfolding count_ranges
  get_liquidations_history time_at = count_ranges time_at time_ranges no_liquidations

-- `Create` of the liquidations and of the ticks, by the outcome of the insertion.
unfoldable pub create_liquidation : Option Error → Option Error
create_liquidation none = none
create_liquidation (some e) = some (wrapped "error inserting liquidation: %w" e)

unfoldable pub create_tick : Option Error → Option Error
create_tick none = none
create_tick (some e) = some (wrapped "error inserting tick snapshot: %w" e)

-- The loop of `GetHistorySince` of the ticks, over what decoding each row gave.
unfoldable pub decode_ticks : {A : Type 0} → List (Result A) → List A → Result (List A)
decode_ticks [] ticks = ok ticks
decode_ticks (err e ∷ rest) ticks = err (wrapped "error decoding tick snapshot: %w" e)
decode_ticks (ok t ∷ rest) ticks = decode_ticks rest (ticks ++ t ∷ [])

-- `GetHistorySince`; `find since` is the query for the ticks created since, oldest first.
unfoldable pub get_history_since :
    {A : Type 0} → (Time → Result (List (Result A))) → Time → Result (List A)
unfolding decode_ticks
get_history_since find since = elim (find since) [
  | err e ↦ err (wrapped "error finding tick snapshots: %w" e)
  | ok rows ↦ decode_ticks rows []
]
