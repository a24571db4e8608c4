-- ===== src/Importer/Tick/Below.antt =====
-- Maps from names to addresses, as in the data of a tick in internal/domain/tick.go.
use exchange_data_importer.Prelude.{
  ℕ, ◌≤◌, ◌<◌, String, ◌≡◌, subst, inl, inr, some, List, [], ◌∷◌, arith, str_eq, Bool-cases, All,
  lookup, insert,
}

-- Names that point at addresses below `n`.
abbrev pub AreBelow : ℕ → List (String × ℕ) → Type 0
AreBelow n data_ = All (λ e. e.1 < n) data_

pub AreBelow-lookup :
    (n : ℕ) (data_ : List (String × ℕ)) (name : String) (q : ℕ)
    → AreBelow n data_
    → lookup name data_ ≡ some q
    → q < n
unfolding lookup
AreBelow-lookup n [] name q live e = cc
AreBelow-lookup n ((k, p) ∷ rest) name q live e = elim (Bool-cases (str_eq k name)) [
  | inl same ↦ let here : p ≡ q = ground arith in subst (λ a. a < n) here live.0
  | inr other ↦ AreBelow-lookup n rest name q live.1 (ground arith)
]

pub AreBelow-insert :
    (n : ℕ) (data_ : List (String × ℕ)) (name : String) (p : ℕ)
    → AreBelow n data_
    → p < n
    → AreBelow n (insert name p data_)
unfolding insert
AreBelow-insert n [] name p live lp = (lp, tt)
AreBelow-insert n ((k, q) ∷ rest) name p live lp = elim (Bool-cases (str_eq k name)) [
  | inl same ↦ rw (same, insert) (lp, live.1)
  | inr other ↦ rw (other, insert) (live.0, AreBelow-insert n rest name p live.1 lp)
]

pub AreBelow-grow :
    (n k : ℕ) (data_ : List (String × ℕ)) → n ≤ k → AreBelow n data_ → AreBelow k data_
AreBelow-grow n k [] le live = tt
AreBelow-grow n k (e ∷ rest) le live = (omega (arith, live.0), AreBelow-grow n k rest le live.1)
