-- ===== src/Repository/Agreement.antt =====
-- internal/infrastructure/repository: the SQLite repository against the in-memory one.
use exchange_data_importer.Prelude.{
  ℕ, ◌+◌, ◌*◌, ◌≤◌, ◌≡◌, ◌≢◌, ◌⊎◌, refl, sym, ap, ◌∙◌, subst, inl, inr, Bool, true, false, ◌&&◌,
  none, List, [], ◌∷◌, arith, str_eq, leb, Bool-cases, keep, map, All, eq_iff, keep-cons_true,
  keep-cons_false,
}
use exchange_data_importer.Time.{Time, after, before, back, second, sub_time}
use exchange_data_importer.Errors.{Result, ok}
use exchange_data_importer.Domain.Order.{order_side_sell, order_side_buy}
use exchange_data_importer.Domain.Liquidation.{Liquidation, LiquidationsHistory, no_liquidations}
use exchange_data_importer.Repository.Memory as Memory
use exchange_data_importer.Repository.Memory.Windows.{
  count_one_old, count_one_long, count_one_short,
}
use exchange_data_importer.Repository.Sqlite as Sqlite

-- An event that is not after the time, and not `d` seconds before it to the nanosecond.
abbrev pub IsOffEdge : Time → ℕ → Time → Type 0
IsOffEdge time_at d event_at = event_at + d * second ≢ time_at

window :
    (time_at event_at : Time) (d : ℕ)
    → event_at ≤ time_at
    → d ≤ 60
    → 60 * second ≤ time_at
    → IsOffEdge time_at d event_at
    → Sqlite.at_most (sub_time time_at event_at) d ≡ after event_at (back time_at (d * second))
window time_at event_at d le small late off = ground arith

module _ {F : Type 0} where
  -- A liquidation on which the two repositories look alike: of one of the two sides, not later than
  -- the time, and at no window's edge.
  pub record IsPlain (time_at : Time) (l : Liquidation F) : Type 0 where
    pub side : (l.order.side ≡ "SELL") ⊎ (l.order.side ≡ "BUY")
    pub past : l.event_at ≤ time_at
    pub off_1 : IsOffEdge time_at 1 l.event_at
    pub off_2 : IsOffEdge time_at 2 l.event_at
    pub off_5 : IsOffEdge time_at 5 l.event_at
    pub off_10 : IsOffEdge time_at 10 l.event_at
    pub off_60 : IsOffEdge time_at 60 l.event_at

  -- The rows that a query for the events between two times selects, in order.
  abbrev pub selected : Time → Time → List (Liquidation F) → List (Sqlite.Row (Liquidation F))
  selected from to ls = map Sqlite.row (keep (λ l. leb from l.event_at && leb l.event_at to) ls)

  module _ (time_at : Time) (late : 60 * second ≤ time_at) (l : Liquidation F)
      (p : IsPlain time_at l) where
    same_window :
        (d : ℕ)
        → d ≤ 60
        → IsOffEdge time_at d l.event_at
        → Sqlite.at_most (sub_time time_at l.event_at) d
          ≡ after l.event_at (back time_at (d * second))
    same_window d small off = window time_at l.event_at d p.past small late off

    long_same :
        (h : LiquidationsHistory)
        → Sqlite.count_long (sub_time time_at l.event_at) h ≡ Memory.count_long time_at l.event_at h
    unfolding Sqlite.count_long Memory.count_long
    long_same h = cc (
      same_window 1 (omega arith) p.off_1,
      same_window 2 (omega arith) p.off_2,
      same_window 5 (omega arith) p.off_5,
      same_window 60 (omega arith) p.off_60,
    )

    short_same :
        (h : LiquidationsHistory)
        → Sqlite.count_short (sub_time time_at l.event_at) h
          ≡ Memory.count_short time_at l.event_at h
    unfolding Sqlite.count_short Memory.count_short
    short_same h = cc (
      same_window 1 (omega arith) p.off_1,
      same_window 2 (omega arith) p.off_2,
      same_window 10 (omega arith) p.off_10,
    )

    -- Counted alike, inside the window of sixty seconds.
    count_one_same :
        (h : LiquidationsHistory)
        → before l.event_at (back time_at (60 * second)) ≡ false
        → Sqlite.count_one time_at l h ≡ Memory.count_one time_at l h
    unfolding Sqlite.count_one
    count_one_same h fresh = elim p.side [
      | inl sell ↦
          let is_sell = (eq_iff l.order.side order_side_sell).1 sell in
          let no_buy : str_eq l.order.side order_side_buy ≡ false =
            subst (λ s. str_eq s order_side_buy ≡ false) (sym sell) refl in
          rw (is_sell, no_buy, Sqlite.count_one)
            (long_same h ∙ sym (count_one_long time_at l h fresh is_sell))
      | inr buy ↦
          let is_buy = (eq_iff l.order.side order_side_buy).1 buy in
          let no_sell : str_eq l.order.side order_side_sell ≡ false =
            subst (λ s. str_eq s order_side_sell ≡ false) (sym buy) refl in
          rw (is_buy, no_sell, Sqlite.count_one)
            (short_same h ∙ sym (count_one_short time_at l h fresh no_sell))
    ]

  count_rows_same :
      (time_at : Time) (ls : List (Liquidation F)) (h : LiquidationsHistory)
      → 60 * second ≤ time_at
      → All (IsPlain time_at) ls
      → Sqlite.count_rows time_at (selected (back time_at (60 * second)) time_at ls) h
        ≡ (Memory.count_all time_at ls h, none)
  unfolding Sqlite.count_rows Memory.count_all
  count_rows_same time_at [] h late p = refl
  count_rows_same time_at (l ∷ rest) h late p =
      let from = back time_at (60 * second) in
      let test : Liquidation F → Bool = λ l. leb from l.event_at && leb l.event_at time_at in
      let rows = λ (r : List (Liquidation F)). Sqlite.count_rows time_at (map Sqlite.row r) h in
      elim (Bool-cases (before l.event_at from)) [
        | inl old ↦
            let out : test l ≡ false = ground arith in
            let same = count_one_old time_at l h old in
            ap rows (keep-cons_false test l rest out)
            ∙ (count_rows_same time_at rest h late p.1
                ∙ ap (λ x. (Memory.count_all time_at rest x, none)) (sym same))
        | inr fresh ↦
            let past = p.0.past in
            let in_ : test l ≡ true = ground arith in
            let same = count_one_same time_at late l p.0 h fresh in
            ap rows (keep-cons_true test l rest in_)
            ∙ (count_rows_same time_at rest (Sqlite.count_one time_at l h) late p.1
                ∙ ap (λ x. (Memory.count_all time_at rest x, none)) same)
      ]

  -- The SQLite repository answers what the in-memory one would: for liquidations of the two sides,
  -- none later than the time of the question or at the very edge of a window, over a database whose
  -- query for the events between two times, both included, selects them in order, it returns the
  -- in-memory repository's history and no error. (The time is a minute or more after the first of
  -- all.)
  pub sqlite_agrees :
      (query : Time → Time → Result (List (Sqlite.Row (Liquidation F)))) (time_at : Time)
      (ls : List (Liquidation F))
      → ((from to : Time) → query from to ≡ ok (selected from to ls))
      → 60 * second ≤ time_at
      → All (IsPlain time_at) ls
      → Sqlite.get_liquidations_history query time_at
        ≡ ((Memory.get_liquidations_history ls time_at).0, none)
  unfolding Sqlite.get_liquidations_history Memory.get_liquidations_history
  sqlite_agrees query time_at ls selects late p =
      rw (selects (back time_at (60 * second)) time_at, Sqlite.get_liquidations_history)
        (count_rows_same time_at ls no_liquidations late p)
