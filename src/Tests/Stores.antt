-- ===== src/Tests/Stores.antt =====
-- The repositories on concrete inputs.
use exchange_data_importer.Prelude.{◌≡◌, refl, inl, inr, none, List, [], ◌∷◌, arith}
use exchange_data_importer.Prelude.Int.{ℤ}
use exchange_data_importer.Errors.{ok}
use exchange_data_importer.Domain.Liquidation.{Liquidation}
use exchange_data_importer.Repository.Memory
use exchange_data_importer.Repository.Sqlite
use exchange_data_importer.Repository.Agreement.{IsPlain, selected, sqlite_agrees}
use exchange_data_importer.Tests.Data.{clock, liquidation_of}

-- Three seconds and a minute and a half before the time of the question.
abbrev stored : List (Liquidation ℤ)
stored = liquidation_of "SELL" (clock 2 7) ∷ liquidation_of "BUY" (clock 0 40) ∷ []

new-IsPlain : IsPlain (clock 2 10) (liquidation_of "SELL" (clock 2 7))
new-IsPlain = record {
  side = inl refl;
  past = omega arith;
  off_1 = omega arith;
  off_2 = omega arith;
  off_5 = omega arith;
  off_10 = omega arith;
  off_60 = omega arith;
}

old-IsPlain : IsPlain (clock 2 10) (liquidation_of "BUY" (clock 0 40))
old-IsPlain = record {
  side = inr refl;
  past = omega arith;
  off_1 = omega arith;
  off_2 = omega arith;
  off_5 = omega arith;
  off_10 = omega arith;
  off_60 = omega arith;
}

sqlite_agrees_example :
    Sqlite.get_liquidations_history (λ from to. ok (selected from to stored)) (clock 2 10)
    ≡ ((Memory.get_liquidations_history stored (clock 2 10)).0, none)
sqlite_agrees_example =
    sqlite_agrees (λ from to. ok (selected from to stored)) (clock 2 10) stored (λ from to. refl)
      (omega arith) (new-IsPlain, (old-IsPlain, tt))
