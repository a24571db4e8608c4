-- ===== src/Notifier/TickInfo.antt =====
-- internal/notifier/strategies/tick_info.go. `Format` prints a header on every tenth call; the
-- columns are kept as values, and the texts that fmt.Fprintf makes of them are left out.
pub mod Header
use exchange_data_importer.Prelude.{ℕ, ◌+◌, ◌%◌, Bool, Option, none, some, List, [], ◌∷◌, ◌==◌}
use exchange_data_importer.Prelude.Int.{ℤ, pos, negsuc, pos_part, neg_part, ◌+ℤ◌, wrap_int64}
use exchange_data_importer.Time.{Time}
use exchange_data_importer.Domain.Ticker.{Tick}

pub record Columns (F : Type 0) : Type 0 where
  pub time : Time
  pub markets : ℤ
  pub max10 : F
  pub min10 : F
  pub avg_buy : F
  pub ll5 : ℕ
  pub ll60 : ℕ
  pub sl2 : ℕ
  pub sl10 : ℕ

pub record Output (F : Type 0) : Type 0 where
  pub has_header : Bool
  pub columns : Columns F

-- `NewTickInfoStrategy`: the counter starts at -1.
abbrev pub new_print_count : ℤ
new_print_count = negsuc 0

-- `count%10 == 0` for an int64: the remainder of Go is 0 for the multiples of 10 of either sign.
abbrev pub is_tenth : ℤ → Bool
is_tenth c = (pos_part c + neg_part c) % 10 == 0

module _ {F : Type 0} where
  unfoldable pub columns_of : Tick F → Columns F
  columns_of t = record {
    time = t.created_at;
    markets = t.avg.tickers_count;
    max10 = t.avg.max10;
    min10 = t.avg.min10;
    avg_buy = t.avg_buy10;
    ll5 = t.ll5;
    ll60 = t.ll60;
    sl2 = t.sl2;
    sl10 = t.sl10;
  }

  -- `Format`: the new counter, and the output unless the data is no tick or a nil one.
  unfoldable pub format : ℤ → Option (Tick F) → ℤ × Option (Output F)
  unfolding columns_of
  format print_count none = (print_count, none)
  format print_count (some t) =
      let count = wrap_int64 (print_count +ℤ pos 1) in
      (count, some (record { has_header = is_tenth count; columns = columns_of t }))

  -- Calls in a row.
  unfoldable pub format_all : ℤ → List (Tick F) → ℤ × List (Output F)
  format_all print_count [] = (print_count, [])
  format_all print_count (t ∷ rest) =
      let (count, out) = format print_count (some t) in
      let (last_count, outs) = format_all count rest in
      (last_count, elim out [ none ↦ outs | some o ↦ o ∷ outs ])
