-- ===== src/Notifier/TickInfo/Header.antt =====
-- internal/notifier/strategies/tick_info.go: the header over the rows.
use exchange_data_importer.Prelude.{
  ℕ, suc, ◌+◌, ◌%◌, ◌^◌, ◌<◌, ◌≡◌, refl, sym, ap, subst, none, some, List, [], ◌∷◌, arith, ◌==◌,
  length,
}
use exchange_data_importer.Prelude.Int.{ℤ, pos, ◌+ℤ◌, wrap_int64}
use exchange_data_importer.Domain.Ticker.{Tick}
use exchange_data_importer.Notifier.TickInfo.{
  Output, new_print_count, is_tenth, columns_of, format, format_all,
}

wrap_int64_small : (k : ℕ) → k < 2 ^ 63 → wrap_int64 (pos k) ≡ pos k
unfolding wrap_int64
wrap_int64_small k small = ground arith

module _ {F : Type 0} where
  -- The rows of calls in a row, the first with the given number.
  abbrev pub rows_from : ℕ → List (Tick F) → List (Output F)
  rows_from k [] = []
  rows_from k (t ∷ rest) =
      record { has_header = k % 10 == 0; columns = columns_of t } ∷ rows_from (suc k) rest

  format_lem :
      (c : ℤ) (k : ℕ) (t : Tick F)
      → c +ℤ pos 1 ≡ pos k
      → k < 2 ^ 63
      → format c (some t)
        ≡ (pos k, some (record { has_header = k % 10 == 0; columns = columns_of t }))
  unfolding format
  format_lem c k t e small =
      rw (e, wrap_int64_small k small)
        (λ i. (pos k, some (record { has_header = tenth i; columns = columns_of t })))
    where
      tenth : is_tenth (pos k) ≡ (k % 10 == 0)
      tenth = ground arith

  format_all_from :
      (c : ℤ) (k : ℕ) (ts : List (Tick F))
      → c +ℤ pos 1 ≡ pos k
      → k + length ts < 2 ^ 63
      → (format_all c ts).1 ≡ rows_from k ts
  unfolding format_all
  format_all_from c k [] e small = refl
  format_all_from c k (t ∷ rest) e small =
      subst
        (λ o.
          elim o.1 [ none ↦ (format_all o.0 rest).1 | some x ↦ x ∷ (format_all o.0 rest).1 ]
          ≡ rows_from k (t ∷ rest))
        (sym (format_lem c k t e (omega arith)))
        (ap (λ l. record { has_header = k % 10 == 0; columns = columns_of t } ∷ l)
          (format_all_from (pos k) (suc k) rest (ground arith) (omega arith)))

  -- The rows that a new strategy prints for fewer than 2 ^ 63 - 1 ticks in a row: one for each
  -- tick, in order, with the tick's figures, and a header over the first of each ten.
  pub format_all_lem :
      (ts : List (Tick F)) → length ts < 2 ^ 63 → (format_all new_print_count ts).1 ≡ rows_from 0 ts
  format_all_lem ts small = format_all_from new_print_count 0 ts refl (omega (arith, small))
