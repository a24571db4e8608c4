-- ===== src/Repository/Memory/Windows.antt =====
-- The answers of the in-memory repository as counts over time windows.
use exchange_data_importer.Prelude.{
  ℕ, ◌+◌, ◌*◌, ◌≤◌, ◌≡◌, refl, ◌∙◌, inl, inr, Bool, true, false, ◌&&◌, not, List, [], ◌∷◌, arith,
  str_eq, if◌then◌else◌, Bool-cases, count_of,
}
use exchange_data_importer.Time.{Time, after, before, back, second}
use exchange_data_importer.Domain.Order.{order_side_sell}
use exchange_data_importer.Domain.Liquidation.{Liquidation, LiquidationsHistory, no_liquidations}
use exchange_data_importer.Repository.Memory.{
  bump, count_long, count_short, count_one, count_all, cleanup, get_liquidations_history,
}

module _ {F : Type 0} where
  -- Liquidations of one side later than `d` before the time.
  abbrev pub within : Bool → ℕ → Time → Liquidation F → Bool
  within long d time_at l =
      (if str_eq l.order.side order_side_sell then long else not long)
      && after l.event_at (back time_at (d * second))

  abbrev pub counted : Time → List (Liquidation F) → LiquidationsHistory → LiquidationsHistory
  counted time_at ls h = record {
    long_1s = count_of (within true 1 time_at) ls + h.long_1s;
    long_2s = count_of (within true 2 time_at) ls + h.long_2s;
    long_5s = count_of (within true 5 time_at) ls + h.long_5s;
    long_60s = count_of (within true 60 time_at) ls + h.long_60s;
    short_1s = count_of (within false 1 time_at) ls + h.short_1s;
    short_2s = count_of (within false 2 time_at) ls + h.short_2s;
    short_10s = count_of (within false 10 time_at) ls + h.short_10s;
  }

  pub count_one_old :
      (time_at : Time) (l : Liquidation F) (h : LiquidationsHistory)
      → before l.event_at (back time_at (60 * second)) ≡ true
      → count_one time_at l h ≡ h
  unfolding count_one
  count_one_old time_at l h old = rw (old, count_one)

  pub count_one_long :
      (time_at : Time) (l : Liquidation F) (h : LiquidationsHistory)
      → before l.event_at (back time_at (60 * second)) ≡ false
      → str_eq l.order.side order_side_sell ≡ true
      → count_one time_at l h ≡ count_long time_at l.event_at h
  unfolding count_one
  count_one_long time_at l h new_ sell = rw (new_, sell, count_one)

  pub count_one_short :
      (time_at : Time) (l : Liquidation F) (h : LiquidationsHistory)
      → before l.event_at (back time_at (60 * second)) ≡ false
      → str_eq l.order.side order_side_sell ≡ false
      → count_one time_at l h ≡ count_short time_at l.event_at h
  unfolding count_one
  count_one_short time_at l h new_ other = rw (new_, other, count_one)

  count_of_cons :
      (p : Liquidation F → Bool) (l : Liquidation F) (rest : List (Liquidation F))
      → count_of p (l ∷ rest) ≡ bump (p l) (count_of p rest)
  count_of_cons p l rest = ground arith

  module _ (time_at : Time) (l : Liquidation F) (rest : List (Liquidation F)) where
    -- A number of the answer before and after the liquidation is counted in it, or passed over.
    taken :
        (long : Bool) (d k : ℕ)
        → within long d time_at l ≡ after l.event_at (back time_at (d * second))
        → count_of (within long d time_at) rest
            + bump (after l.event_at (back time_at (d * second))) k
          ≡ count_of (within long d time_at) (l ∷ rest) + k
    taken long d k e = ground (arith, count_of_cons (within long d time_at) l rest)

    passed :
        (long : Bool) (d k : ℕ)
        → within long d time_at l ≡ false
        → count_of (within long d time_at) rest + k
          ≡ count_of (within long d time_at) (l ∷ rest) + k
    passed long d k e = ground (arith, count_of_cons (within long d time_at) l rest)

    old-counted :
        (h : LiquidationsHistory)
        → before l.event_at (back time_at (60 * second)) ≡ true
        → counted time_at rest h ≡ counted time_at (l ∷ rest) h
    old-counted h old = λ i. record {
      long_1s = passed true 1 h.long_1s (early true 1 (omega arith)) i;
      long_2s = passed true 2 h.long_2s (early true 2 (omega arith)) i;
      long_5s = passed true 5 h.long_5s (early true 5 (omega arith)) i;
      long_60s = passed true 60 h.long_60s (early true 60 (omega arith)) i;
      short_1s = passed false 1 h.short_1s (early false 1 (omega arith)) i;
      short_2s = passed false 2 h.short_2s (early false 2 (omega arith)) i;
      short_10s = passed false 10 h.short_10s (early false 10 (omega arith)) i;
    }
      where
        early : (long : Bool) (d : ℕ) → d ≤ 60 → within long d time_at l ≡ false
        early long d small = ground arith

    long-counted :
        (h : LiquidationsHistory)
        → str_eq l.order.side order_side_sell ≡ true
        → counted time_at rest (count_long time_at l.event_at h) ≡ counted time_at (l ∷ rest) h
    unfolding count_long
    long-counted h sell = λ i. record {
      long_1s = taken true 1 h.long_1s (rw sell) i;
      long_2s = taken true 2 h.long_2s (rw sell) i;
      long_5s = taken true 5 h.long_5s (rw sell) i;
      long_60s = taken true 60 h.long_60s (rw sell) i;
      short_1s = passed false 1 h.short_1s (rw sell) i;
      short_2s = passed false 2 h.short_2s (rw sell) i;
      short_10s = passed false 10 h.short_10s (rw sell) i;
    }

    short-counted :
        (h : LiquidationsHistory)
        → str_eq l.order.side order_side_sell ≡ false
        → counted time_at rest (count_short time_at l.event_at h) ≡ counted time_at (l ∷ rest) h
    unfolding count_short
    short-counted h other = λ i. record {
      long_1s = passed true 1 h.long_1s (rw other) i;
      long_2s = passed true 2 h.long_2s (rw other) i;
      long_5s = passed true 5 h.long_5s (rw other) i;
      long_60s = passed true 60 h.long_60s (rw other) i;
      short_1s = taken false 1 h.short_1s (rw other) i;
      short_2s = taken false 2 h.short_2s (rw other) i;
      short_10s = taken false 10 h.short_10s (rw other) i;
    }

  count_one-counted :
      (time_at : Time) (l : Liquidation F) (rest : List (Liquidation F)) (h : LiquidationsHistory)
      → counted time_at rest (count_one time_at l h) ≡ counted time_at (l ∷ rest) h
  count_one-counted time_at l rest h =
      elim (Bool-cases (before l.event_at (back time_at (60 * second)))) [
        | inl old ↦ rw (count_one_old time_at l h old) (old-counted time_at l rest h old)
        | inr new_ ↦ elim (Bool-cases (str_eq l.order.side order_side_sell)) [
          | inl sell ↦
              rw (count_one_long time_at l h new_ sell) (long-counted time_at l rest h sell)
          | inr other ↦
              rw (count_one_short time_at l h new_ other) (short-counted time_at l rest h other)
        ]
      ]

  count_all-counted :
      (time_at : Time) (ls : List (Liquidation F)) (h : LiquidationsHistory)
      → count_all time_at ls h ≡ counted time_at ls h
  unfolding count_all
  count_all-counted time_at [] h = ground arith
  count_all-counted time_at (l ∷ rest) h =
      count_all-counted time_at rest (count_one time_at l h) ∙ count_one-counted time_at l rest h

  -- Each number of the answer counts the stored liquidations of its side (SELL for long, any other
  -- for short) that are later than its window's start.
  pub get_liquidations_history_counts :
      (ls : List (Liquidation F)) (time_at : Time)
      → (get_liquidations_history ls time_at).0 ≡ counted time_at ls no_liquidations
  unfolding get_liquidations_history
  get_liquidations_history_counts ls time_at = count_all-counted time_at ls no_liquidations

  count_of-cleanup :
      (long : Bool) (d : ℕ) (limit time_at : Time) (ls : List (Liquidation F))
      → limit ≤ back time_at (d * second)
      → count_of (within long d time_at) (cleanup limit ls) ≡ count_of (within long d time_at) ls
  unfolding cleanup
  count_of-cleanup long d limit time_at [] h = refl
  count_of-cleanup long d limit time_at (l ∷ rest) h =
      ground (arith, count_of-cleanup long d limit time_at rest h)

  -- Cleaning up is invisible: an answer for the same or a later time is the same whether or not the
  -- earlier call dropped its old liquidations.
  pub cleanup_invisible :
      (ls : List (Liquidation F)) (time_at later : Time)
      → time_at ≤ later
      → (get_liquidations_history (get_liquidations_history ls time_at).1 later).0
        ≡ (get_liquidations_history ls later).0
  unfolding get_liquidations_history
  cleanup_invisible ls time_at later h =
      let limit = back time_at (60 * second) in
      rw (
        count_all-counted later (cleanup limit ls) no_liquidations,
        count_all-counted later ls no_liquidations,
        count_of-cleanup true 1 limit later ls (omega arith),
        count_of-cleanup true 2 limit later ls (omega arith),
        count_of-cleanup true 5 limit later ls (omega arith),
        count_of-cleanup true 60 limit later ls (omega arith),
        count_of-cleanup false 1 limit later ls (omega arith),
        count_of-cleanup false 2 limit later ls (omega arith),
        count_of-cleanup false 10 limit later ls (omega arith),
      )
