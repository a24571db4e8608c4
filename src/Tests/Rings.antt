-- ===== src/Tests/Rings.antt =====
-- Ring buffers, the in-memory repository and the number helpers on concrete inputs.
use exchange_data_importer.Prelude.{
  ℕ, zero, suc, ◌%◌, ◌+◌, ◌<◌, ◌≡◌, refl, some, List, [], ◌∷◌, arith, get_elem?,
}
use exchange_data_importer.Prelude.Int.{ℤ, pos}
use exchange_data_importer.Float.Whole.{whole}
use exchange_data_importer.Ring.{Ring, new, push, at, len, last, values}
use exchange_data_importer.Ring.Refine.{Holds, push_list, push-Holds, reads-Holds}
use exchange_data_importer.Ring.History.{push_all, newest, push_all-new}
use exchange_data_importer.Domain.Liquidation.{Liquidation, no_liquidations}
use exchange_data_importer.Repository.Memory.{get_liquidations_history}
use exchange_data_importer.Repository.Memory.Windows.{
  counted, get_liquidations_history_counts, cleanup_invisible,
}
use exchange_data_importer.Tests.Data.{clock, liquidation_of}

abbrev numbers : List ℕ
numbers = 5 ∷ 6 ∷ 7 ∷ 8 ∷ []

abbrev full_ring : Ring ℕ
full_ring = record { data_ = 8 ∷ 6 ∷ 7 ∷ []; start = 1; size = 3; capacity = 3 }

full_ring-item :
    (i : ℕ) → i < 3 → get_elem? full_ring.data_ ((1 + i) % 3) ≡ get_elem? (6 ∷ 7 ∷ 8 ∷ []) i
full_ring-item zero p = refl
full_ring-item (suc zero) p = refl
full_ring-item (suc (suc zero)) p = refl
full_ring-item (suc (suc (suc k))) p = absurd (omega arith)

full_ring-Holds : Holds full_ring (6 ∷ 7 ∷ 8 ∷ [])
full_ring-Holds = record { valid = omega arith; count = refl; item = full_ring-item }

push_all-new_example :
    (r : Ring ℕ) × (push_all (new 3 0) numbers ≡ some r) × Holds r (newest 3 numbers)
push_all-new_example = push_all-new 3 0 numbers (omega arith)

push-Holds_example :
    (r : Ring ℕ) × (push full_ring 9 ≡ some r) × Holds r (push_list 3 (6 ∷ 7 ∷ 8 ∷ []) 9)
push-Holds_example = push-Holds full_ring (6 ∷ 7 ∷ 8 ∷ []) 9 full_ring-Holds

reads-Holds_example :
    (len full_ring ≡ 3)
    × (last full_ring ≡ some (some 8))
    × (values full_ring ≡ some (6 ∷ 7 ∷ 8 ∷ []))
    × (at full_ring (pos 1) ≡ some 7)
reads-Holds_example = reads-Holds full_ring (6 ∷ 7 ∷ 8 ∷ []) 1 full_ring-Holds

abbrev stored : List (Liquidation ℤ)
stored =
    liquidation_of "SELL" (clock 1 0)
    ∷ liquidation_of "SELL" (clock 3 30)
    ∷ liquidation_of "BUY" (clock 4 9)
    ∷ []

get_liquidations_history_counts_example :
    (get_liquidations_history stored (clock 4 10)).0 ≡ counted (clock 4 10) stored no_liquidations
get_liquidations_history_counts_example = get_liquidations_history_counts stored (clock 4 10)

cleanup_invisible_example :
    (get_liquidations_history (get_liquidations_history stored (clock 4 10)).1 (clock 4 20)).0
    ≡ (get_liquidations_history stored (clock 4 20)).0
cleanup_invisible_example = cleanup_invisible stored (clock 4 10) (clock 4 20) (omega arith)
