-- ===== src/Ring/History.antt =====
-- A sequence of pushes: what a ring buffer keeps of its history.
use exchange_data_importer.Prelude.{
  ℕ, zero, suc, ◌-◌, ◌≤◌, ◌<◌, ◌≡◌, refl, ◌∙◌, subst, inl, inr, Option, none, some, List, [], ◌∷◌,
  ◌++◌, append-nil, append_assoc, arith, ltb, tests, Bool-cases, length, drop, length-append,
  length-drop,
}
use exchange_data_importer.Ring.{Ring, new, push}
use exchange_data_importer.Ring.Inv.{capacity-push}
use exchange_data_importer.Ring.Refine.{Holds, push_list, push-Holds, new-Holds}

module _ {ℓ} {A : Type ℓ} where
  -- Pushing a whole list, in order.
  pub push_all : Ring A → List A → Option (Ring A)
  push_all r [] = some r
  push_all r (v ∷ vs) = elim (push r v) [ none ↦ none | some r' ↦ push_all r' vs ]

  -- The last `c` items of a list.
  abbrev pub newest : ℕ → List A → List A
  newest c xs = drop (length xs - c) xs

  drop_append : (n : ℕ) (xs ys : List A) → n ≤ length xs → drop n (xs ++ ys) ≡ drop n xs ++ ys
  drop_append zero xs ys h = refl
  drop_append (suc n) [] ys h = elim h [ ]
  drop_append (suc n) (x ∷ xs) ys h = drop_append n xs ys (omega arith)

  drop-drop : (n : ℕ) (xs : List A) → drop 1 (drop n xs) ≡ drop (suc n) xs
  drop-drop zero [] = refl
  drop-drop zero (x ∷ xs) = refl
  drop-drop (suc n) [] = refl
  drop-drop (suc n) (x ∷ xs) = drop-drop n xs

  -- One push keeps the newest items of the history.
  pub push_list-newest :
      (c : ℕ) (xs : List A) (v : A) → 0 < c → push_list c (newest c xs) v ≡ newest c (xs ++ v ∷ [])
  push_list-newest c xs v h = elim (Bool-cases (ltb (length (newest c xs)) c)) [
    | inl e ↦
        let none_gone : length xs - c ≡ 0 = omega (tests, length-drop (length xs - c) xs) in
        let none_goes : length (xs ++ v ∷ []) - c ≡ 0 =
          omega (tests, length-append xs (v ∷ []), length-drop (length xs - c) xs) in
        rw (e, none_gone, none_goes)
    | inr e ↦
        let full : c ≤ length xs = omega (tests, length-drop (length xs - c) xs) in
        let one_goes : length (xs ++ v ∷ []) - c ≡ suc (length xs - c) =
          omega (arith, length-append xs (v ∷ [])) in
        rw (e, one_goes, drop-drop, drop_append (suc (length xs - c)) xs (v ∷ []) (omega arith))
  ]

  push_all_step :
      (r r1 : Ring A) (v : A) (vs : List A)
      → push r v ≡ some r1
      → push_all r (v ∷ vs) ≡ push_all r1 vs
  unfolding push_all
  push_all_step r r1 v vs e = rw (e, push_all)

  push_all-Holds :
      (c : ℕ) (r : Ring A) (past vs : List A)
      → 0 < c
      → r.capacity ≡ c
      → Holds r (newest c past)
      → (r' : Ring A) × (push_all r vs ≡ some r') × Holds r' (newest c (past ++ vs))
  unfolding push_all
  push_all-Holds c r past [] h k i = (r, refl, rw append-nil i)
  push_all-Holds c r past (v ∷ vs) h k i =
      let (r1, e1, i1) = push-Holds r (newest c past) v i in
      let i2 : Holds r1 (newest c (past ++ v ∷ [])) =
        rw (← push_list-newest c past v h)
          (subst (λ n. Holds r1 (push_list n (newest c past) v)) k i1) in
      let (r2, e2, i3) =
        push_all-Holds c r1 (past ++ v ∷ []) vs h (capacity-push r v r1 e1 ∙ k) i2 in
      (r2, push_all_step r r1 v vs e1 ∙ e2, rw (← append_assoc past (v ∷ []) vs) i3)

  drop_nil : (n : ℕ) → drop {A = A} n [] ≡ []
  drop_nil zero = refl
  drop_nil (suc n) = refl

  -- A new ring of positive capacity takes any sequence of pushes without a panic, and then holds
  -- exactly the newest `capacity` items of the sequence, in order.
  pub push_all-new :
      (c : ℕ) (z : A) (vs : List A)
      → 0 < c
      → (r : Ring A) × (push_all (new c z) vs ≡ some r) × Holds r (newest c vs)
  unfolding new
  push_all-new c z vs h =
      push_all-Holds c (new c z) [] vs h refl (rw (drop_nil (0 - c)) (new-Holds c z h))
