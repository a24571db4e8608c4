-- ===== src/Domain/Indicators/Extremes.antt =====
-- `CalculateIndicators` of a ticker: the largest and the smallest ask of the last ten.
use exchange_data_importer.Prelude.{
  ℕ, zero, suc, ◌+◌, ◌≤◌, ◌<◌, ◌≡◌, subst, true, some, arith, if◌then◌else◌,
}
use native.Mathlib.Decide.{ℕ_discrete}
use exchange_data_importer.Prelude.Partial.{bind_some}
use exchange_data_importer.Float.{Float, IsOrdered}
use exchange_data_importer.Ring.{Ring, len}
use exchange_data_importer.Domain.Ticker.{Ticker, Heap}
use exchange_data_importer.Domain.Indicators.{ticker_at, extremes}
use exchange_data_importer.Domain.Indicators.Total.{IsLive, extremes_total}

module _ {F : Type 0} ⦃f : Float F⦄ (laws : IsOrdered F) where
  open laws use {lt-eq-not-le, num_of_le, le_trans, le_total}

  -- The asks at the indices from `i` on, `n` of them, are numbers.
  pub record AreNumbers (h : Heap F) (r : Ring ℕ) (i n : ℕ) : Type 0 where
    pub number :
        (j : ℕ) (t : Ticker F)
        → i ≤ j
        → j < i + n
        → ticker_at h r j ≡ some t
        → f.le t.ask t.ask ≡ true

  -- A range that bounds the former one and the asks at those indices.
  pub record Bounds (h : Heap F) (r : Ring ℕ) (i n : ℕ) (lo hi lo' hi' : F) : Type 0 where
    pub lower : f.le lo' lo ≡ true
    pub upper : f.le hi hi' ≡ true
    pub inside :
        (j : ℕ) (t : Ticker F)
        → i ≤ j
        → j < i + n
        → ticker_at h r j ≡ some t
        → (f.le lo' t.ask ≡ true) × (f.le t.ask hi' ≡ true)

  step_lo :
      (a lo : F)
      → f.le a a ≡ true
      → f.le lo lo ≡ true
      → let m = if f.lt a lo then a else lo in
        (f.le m m ≡ true) × (f.le m lo ≡ true) × (f.le m a ≡ true)
  step_lo a lo n1 n2 = ground (arith, lt-eq-not-le a lo, le_total a lo)

  step_hi :
      (a hi : F)
      → f.le a a ≡ true
      → f.le hi hi ≡ true
      → let m = if f.lt hi a then a else hi in
        (f.le m m ≡ true) × (f.le hi m ≡ true) × (f.le a m ≡ true)
  step_hi a hi n1 n2 = ground (arith, lt-eq-not-le hi a, le_total a hi)

  extremes_run :
      (h : Heap F) (r : Ring ℕ) (i n : ℕ) (lo hi lo' hi' : F)
      → AreNumbers h r i n
      → f.le lo lo ≡ true
      → f.le hi hi ≡ true
      → extremes h r i n lo hi ≡ some (lo', hi')
      → Bounds h r i n lo hi lo' hi'
  unfolding extremes
  extremes_run h r i zero lo hi lo' hi' a nl nh e =
      let el : lo ≡ lo' = cc in
      let eh : hi ≡ hi' = cc in
      record { lower = cc; upper = cc; inside = λ j t p q x. absurd (omega arith) }
  extremes_run h r i (suc n) lo hi lo' hi' a nl nh e =
      let (t, e1, e2) = bind_some (ticker_at h r i) _ e in
      let na = a.number i t (omega arith) (omega arith) e1 in
      let (l1, l2, l3) = step_lo t.ask lo na nl in
      let (h1, h2, h3) = step_hi t.ask hi na nh in
      let rest =
        extremes_run h r (i + 1) n _ _ lo' hi'
          (record { number = λ j t' p q x. a.number j t' (omega arith) (omega arith) x }) l1 h1
          e2 in
      record {
        lower = le_trans lo' _ lo rest.lower l2;
        upper = le_trans hi _ hi' h2 rest.upper;
        inside = λ j t' p q x. elim (ℕ_discrete i j) [
          | yes here ↦
              let same : t ≡ t' = cc in
              subst (λ k. (f.le lo' k.ask ≡ true) × (f.le k.ask hi' ≡ true)) same
                (le_trans lo' _ t.ask rest.lower l3, le_trans t.ask _ hi' h3 rest.upper)
          | no there ↦ rest.inside j t' (omega arith) (omega arith) x
        ];
      }

  -- Over a live history, the loop over a window inside it never panics, and where the asks of the
  -- window and the two start values are numbers, its result bounds the start values and every ask
  -- of the window.
  pub extremes-Bounds :
      (h : Heap F) (r : Ring ℕ) (i n : ℕ) (lo hi : F)
      → IsLive h r
      → i + n ≤ len r
      → AreNumbers h r i n
      → f.le lo lo ≡ true
      → f.le hi hi ≡ true
      → (out : F × F) × (extremes h r i n lo hi ≡ some out) × Bounds h r i n lo hi out.0 out.1
  extremes-Bounds h r i n lo hi live within a nl nh =
      let (out, e) = extremes_total h r live i n lo hi within in
      (out, e, extremes_run h r i n lo hi out.0 out.1 a nl nh e)
