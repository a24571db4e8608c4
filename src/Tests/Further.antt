-- ===== src/Tests/Further.antt =====
-- Extremes of a window, the order of deliveries, and a liquidation's way from Bybit.
use exchange_data_importer.Prelude.{
  zero, suc, ◌+◌, ◌%◌, ◌<◌, get_elem?, ℕ, ◌≡◌, refl, Option, none, some, List, [], ◌∷◌, ◌++◌, arith,
}
use exchange_data_importer.Prelude.Int.{ℤ, pos}
use exchange_data_importer.Float.Whole.{whole, whole-IsOrdered}
use exchange_data_importer.Errors.{Error}
use exchange_data_importer.Ring.{Ring, len}
use exchange_data_importer.Domain.Ticker.{Heap}
use exchange_data_importer.Domain.Indicators.{extremes}
use exchange_data_importer.Domain.Indicators.Total.{IsLive}
use exchange_data_importer.Domain.Indicators.Extremes.{AreNumbers, Bounds, extremes-Bounds}
use exchange_data_importer.Notifier.{Handlers, handlers_of, notify}
use exchange_data_importer.Notifier.Delivery.Sequence.{
  format_pure, send_logged, deliveries, notify_order,
}
use exchange_data_importer.Tests.Data.{clock, ticker_of}

abbrev quotes : Heap ℤ
quotes =
    ticker_of "BTCUSDT" (clock 1 0) (pos 100) (pos 90)
    ∷ ticker_of "BTCUSDT" (clock 2 0) (pos 110) (pos 95)
    ∷ []

abbrev window : Ring ℕ
window = record { data_ = 0 ∷ 1 ∷ []; start = 0; size = 2; capacity = 2 }

quotes-AreNumbers : AreNumbers whole-IsOrdered quotes window 0 2
quotes-AreNumbers = record { number = λ j t p q x. ground arith }

window-item : (i : ℕ) → i < 2 → get_elem? window.data_ ((0 + i) % 2) ≡ get_elem? (0 ∷ 1 ∷ []) i
window-item zero p = refl
window-item (suc zero) p = refl
window-item (suc (suc k)) p = absurd (omega arith)

window-IsLive : IsLive quotes window
window-IsLive = record {
  items = 0 ∷ 1 ∷ [];
  holds = record { valid = omega arith; count = refl; item = window-item };
  live = (omega arith, (omega arith, tt));
}

extremes-Bounds_example :
    (out : ℤ × ℤ) × (extremes quotes window 0 2 (pos 1000) (pos 0) ≡ some out)
    × Bounds whole-IsOrdered quotes window 0 2 (pos 1000) (pos 0) out.0 out.1
unfolding len
extremes-Bounds_example =
    extremes-Bounds whole-IsOrdered quotes window 0 2 (pos 1000) (pos 0) window-IsLive (omega arith)
      quotes-AreNumbers refl refl

-- A strategy that sends its own number after the data.
abbrev pair_of : ℕ → ℕ → List ℕ
pair_of s d = d ∷ s ∷ []

abbrev all_fail : ℕ → ℕ → Option Error
all_fail c e = none

abbrev subscribed : Handlers ℕ ℕ
subscribed =
    ("TICK_INFO", record { client = 1; strategy = 10 } ∷ [])
    ∷ (
      "MARKET_DATA",
      record { client = 2; strategy = 20 } ∷ record { client = 3; strategy = 30 } ∷ [],
    )
    ∷ []

notify_order_example :
    notify (format_pure pair_of all_fail) (send_logged pair_of all_fail) [] subscribed (some 7)
    ≡ (([] ++ deliveries pair_of all_fail (handlers_of subscribed "MARKET_DATA") 7)
        ++ deliveries pair_of all_fail (handlers_of subscribed "TICK_INFO") 7)
      ++ deliveries pair_of all_fail (handlers_of subscribed "ALERT_MARKET_STATE") 7
notify_order_example = notify_order pair_of all_fail [] subscribed 7
