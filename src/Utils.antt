-- ===== src/Utils.antt =====
-- pkg/utils/mathutils/mathutils.go and pkg/utils/tradeutils/tradeutils.go.
pub mod Bounds
use exchange_data_importer.Prelude.{
  ℕ, zero, suc, ◌-◌, ◌&&◌, List, [], ◌∷◌, ltb, if◌then◌else◌, length, drop,
}
use exchange_data_importer.Prelude.Int.{ℤ, pos, negsuc}
use exchange_data_importer.Float.{Float}

module _ {F : Type 0} ⦃f : Float F⦄ where
  -- `Round`.
  unfoldable pub round : F → ℤ → F
  round val decimals = let p = f.pow10 decimals in f.div (f.round (f.mul val p)) p

  -- `PercDiff`.
  unfoldable pub perc_diff : F → F → ℤ → F
  perc_diff curr prev decimals =
      if f.eq prev (f.lit (pos 0))
      then f.lit (pos 0)
      else let diff = f.mul (f.div (f.sub curr prev) prev) (f.lit (pos 100)) in
        elim decimals [
          | pos n ↦ round diff (pos n)
          | negsuc zero ↦ diff
          | negsuc (suc n) ↦ round diff (negsuc (suc n))
        ]

  -- `Clamp`.
  unfoldable pub clamp : F → F → F → F
  clamp val min_val max_val =
      if f.lt val min_val then min_val else if f.lt max_val val then max_val else val

  -- The loop of `CalculateRSI` over `slice[i-1], slice[i], …`, with the sums `up` and `down`.
  unfoldable pub moves : F → List F → F → F → F × F
  moves previous [] up down = (up, down)
  moves previous (current ∷ rest) up down =
      moves current rest (if f.lt previous current then f.add up (f.sub current previous) else up)
        (if f.lt previous current then down else f.add down (f.sub previous current))

  abbrev pub moves_of : List F → F × F
  moves_of [] = (f.lit (pos 0), f.lit (pos 0))
  moves_of (x ∷ xs) = moves x xs (f.lit (pos 0)) (f.lit (pos 0))

  -- The result of `CalculateRSI` from the two sums.
  unfoldable pub rsi_of : F × F → F
  rsi_of (up, down) =
      if f.eq up (f.lit (pos 0)) && f.eq down (f.lit (pos 0))
      then f.lit (pos 50)
      else if f.eq up (f.lit (pos 0))
      then f.lit (pos 0)
      else if f.eq down (f.lit (pos 0))
      then f.lit (pos 100)
      else f.sub (f.lit (pos 100)) (f.div (f.lit (pos 100)) (f.add (f.lit (pos 1)) (f.div up down)))

  -- `CalculateRSI`, for a period that is not negative.
  unfoldable pub calculate_rsi : List F → ℕ → F
  unfolding rsi_of moves
  calculate_rsi history period =
      if ltb (length history) 2
      then f.lit (pos 0)
      else let used = if ltb (length history) period then length history else period in
        rsi_of (moves_of (drop (length history - used) history))
