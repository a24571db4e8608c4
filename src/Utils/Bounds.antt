-- ===== src/Utils/Bounds.antt =====
-- Ranges and edge cases of the number helpers.
use exchange_data_importer.Prelude.{
  ℕ, suc, ◌+◌, ◌-◌, ◌≤◌, ◌≡◌, refl, ◌⊎◌, true, false, List, [], ◌∷◌, arith, ltb, if◌then◌else◌,
  length,
}
use exchange_data_importer.Prelude.Int.{pos}
use exchange_data_importer.Float.{Float, IsOrdered}
use exchange_data_importer.Utils.{clamp, moves, moves_of, rsi_of, calculate_rsi}

unused : (n period : ℕ) → n ≤ period → n - (if ltb n period then n else period) ≡ 0
unused n period h = ground arith

module _ {F : Type 0} ⦃f : Float F⦄ (laws : IsOrdered F) where
  open laws use {lt-eq-not-le, num_of_le, le_trans, le_total}

  -- `Clamp` of a number stays inside the range, when the range is not empty.
  pub clamp_bounds :
      (val lo hi : F)
      → f.le val val ≡ true
      → f.le lo hi ≡ true
      → (f.le lo (clamp val lo hi) ≡ true) × (f.le (clamp val lo hi) hi ≡ true)
  unfolding clamp
  clamp_bounds val lo hi n h = ground (
    arith,
    num_of_le lo hi h,
    lt-eq-not-le val lo n,
    lt-eq-not-le hi val,
    le_total lo val,
    le_total val hi,
  )

  -- `Clamp` changes nothing inside the range.
  pub clamp_inside :
      (val lo hi : F) → f.le lo val ≡ true → f.le val hi ≡ true → clamp val lo hi ≡ val
  unfolding clamp
  clamp_inside val lo hi h k =
      ground
        (arith, num_of_le lo val h, num_of_le val hi k, lt-eq-not-le val lo, lt-eq-not-le hi val)

module _ {F : Type 0} ⦃f : Float F⦄ where
  -- A history that never rises leaves the sum `up` as it was.
  abbrev pub IsRising : F → List F → Type 0
  IsRising x [] = Unit
  IsRising x (y ∷ ys) = (f.lt x y ≡ true) × IsRising y ys

  abbrev pub IsFalling : F → List F → Type 0
  IsFalling x [] = Unit
  IsFalling x (y ∷ ys) = (f.lt x y ≡ false) × IsFalling y ys

  pub moves_rising :
      (x : F) (xs : List F) (up down : F) → IsRising x xs → (moves x xs up down).1 ≡ down
  unfolding moves
  moves_rising x [] up down h = refl
  moves_rising x (y ∷ ys) up down h = rw (h.0, moves) (moves_rising y ys _ down h.1)

  pub moves_falling :
      (x : F) (xs : List F) (up down : F) → IsFalling x xs → (moves x xs up down).0 ≡ up
  unfolding moves
  moves_falling x [] up down h = refl
  moves_falling x (y ∷ ys) up down h = rw (h.0, moves) (moves_falling y ys up _ h.1)

  whole_history :
      (x y : F) (xs : List F) (period : ℕ)
      → length xs + 2 ≤ period
      → calculate_rsi (x ∷ y ∷ xs) period ≡ rsi_of (moves_of (x ∷ y ∷ xs))
  unfolding calculate_rsi
  whole_history x y xs period h =
      let enough : ltb (suc (suc (length xs))) 2 ≡ false = ground arith in
      rw (enough, unused (suc (suc (length xs))) period (omega arith))

  rsi_of_rising :
      (m : F × F)
      → f.eq (f.lit (pos 0)) (f.lit (pos 0)) ≡ true
      → m.1 ≡ f.lit (pos 0)
      → (rsi_of m ≡ f.lit (pos 100)) ⊎ (rsi_of m ≡ f.lit (pos 50))
  unfolding rsi_of
  rsi_of_rising (up, down) z e = rw e (ground arith)

  rsi_of_falling :
      (m : F × F)
      → f.eq (f.lit (pos 0)) (f.lit (pos 0)) ≡ true
      → m.0 ≡ f.lit (pos 0)
      → (rsi_of m ≡ f.lit (pos 0)) ⊎ (rsi_of m ≡ f.lit (pos 50))
  unfolding rsi_of
  rsi_of_falling (up, down) z e = rw e (ground arith)

  -- If the period covers a history of two prices or more, the index is 100 or 50 where every price
  -- is above the one before it, and 0 or 50 where none is; 50 is the answer where both sums of
  -- moves are zero. (`0 == 0` is assumed of the numbers.)
  pub calculate_rsi_monotone :
      (x y : F) (xs : List F) (period : ℕ)
      → f.eq (f.lit (pos 0)) (f.lit (pos 0)) ≡ true
      → length xs + 2 ≤ period
      → let rsi = calculate_rsi (x ∷ y ∷ xs) period in
        (IsRising x (y ∷ xs) → (rsi ≡ f.lit (pos 100)) ⊎ (rsi ≡ f.lit (pos 50)))
        × (IsFalling x (y ∷ xs) → (rsi ≡ f.lit (pos 0)) ⊎ (rsi ≡ f.lit (pos 50)))
  calculate_rsi_monotone x y xs period z h = rw (whole_history x y xs period h) (
    (λ r. rsi_of_rising (moves_of (x ∷ y ∷ xs)) z (moves_rising x (y ∷ xs) _ _ r)),
    (λ r. rsi_of_falling (moves_of (x ∷ y ∷ xs)) z (moves_falling x (y ∷ xs) _ _ r)),
  )
